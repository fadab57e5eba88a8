-- ===== src/Evaluate/Cold.antt =====
-- `observe_cold` and `evaluate_cold`: the FinOps side of src/evaluate/metric.py.
pub mod Agreement
use claude_azure_o11y.Prelude.{
  ℕ, ◌-◌, ◌*◌, Bool, true, false, Option, none, some, String, List, [], ◌∷◌, ◌++◌, Result, ok, err,
  assertion_error, value_error, key_error, exception, ◌>>=◌, length, leb, filter, ◌==◌, nat_eq,
  string_eq, if◌then◌else◌,
}
use claude_azure_o11y.Prelude.Text.{◌<>◌}
use claude_azure_o11y.Prelude.Dict
use claude_azure_o11y.Prelude.Dict.{Dict}
use claude_azure_o11y.Float.{Float, gt}
use claude_azure_o11y.Models.{
  Resource, MetricPoint, Series, ColdObservation, ColdFinding, Skip, Time,
}
use claude_azure_o11y.Config.{
  MetricThreshold, ResourceTypeThresholds, Thresholds, HotWhen, above, below, finops_metrics,
  input_metrics, is_some,
}
use claude_azure_o11y.Evaluate.Percentile.{percentile}
use claude_azure_o11y.Evaluate.Threshold.{
  resolve_threshold_with_source, valid, latest, expected_points,
}

abbrev pub day : Time
day = 86_400_000_000

pub data Observed (F : Type 0) : Type 0 where
  seen : ColdObservation F → Observed F
  unseen : Skip → Observed F

-- The percentage that is asked for: `100 - P` of a metric that is hot below its threshold. A
-- negative one is what `percentile` refuses.
unfoldable pub taken_percentile : HotWhen → ℕ → Result ℕ
taken_percentile above p = ok p
taken_percentile below p =
    if leb p 100 then ok (100 - p) else err (value_error "percentile must be within 0..100")

-- What the loop of `evaluate_cold` ends with: an early return, or the observations.
pub data Verdict (F : Type 0) : Type 0 where
  dropped : List Skip → Verdict F
  all_cold : List (ColdObservation F) → Verdict F

-- `series[key]`
abbrev pub points_at : {F : Type 0} → String → Series F → Result (List (MetricPoint F))
points_at key series = elim (Dict.lookup key series) [
  | none ↦ err (key_error key)
  | some ps ↦ ok ps
]

-- `assert value is not None`
abbrev present {ℓ} : {A : Type ℓ} → Option A → Result A
present none = err (assertion_error "")
present (some a) = ok a

module _ {F : Type 0} ⦃fl : Float F⦄ where
  unfoldable pub is_cold : HotWhen → F → F → Bool
  is_cold above value threshold = fl.lt value threshold
  is_cold below value threshold = gt value threshold

  -- `len(values) / expected if expected else 0.0`
  unfoldable pub coverage_of : ℕ → ℕ → F
  coverage_of found expected =
      if expected == 0 then fl.of_nat 0 else fl.div (fl.of_nat found) (fl.of_nat expected)

  module _ (resource : Resource F) (th : Thresholds F) (granularity : Time) where
    -- `observe_cold` behind the check of the coverage.
    unfoldable pub measure_cold :
        String → MetricThreshold F → F → F → List F → Result (ColdObservation F)
    unfolding taken_percentile is_cold
    measure_cold key cfg finops_cold coverage values =
        let (threshold, source) =
          resolve_threshold_with_source resource.tags th.tags.threshold_prefix key "cold"
            finops_cold in
        do
          p ← taken_percentile cfg.hot_when th.windows.finops.percentile
          found ← percentile values p
          middle ← percentile values 50
          value ← present found
          median ← present middle
          ok (record {
            metric = key;
            percentile = p;
            value = fl.round value 2;
            median = fl.round median 2;
            threshold = threshold;
            cold = is_cold cfg.hot_when value threshold;
            coverage = fl.round coverage 3;
            threshold_source = source;
          })

    unfoldable pub observe_cold :
        List (MetricPoint F) → String → MetricThreshold F → Result (Observed F)
    unfolding coverage_of
    observe_cold points key cfg = elim cfg.finops_cold [
      | none ↦ err (assertion_error (key <> " has no finops_cold"))
      | some finops_cold ↦
          expected_points (th.windows.finops.lookback_days * day) granularity >>= λ expected.
          let coverage = coverage_of (length (valid points)) expected in
          if fl.lt coverage th.windows.finops.min_coverage
          then ok (
              unseen (record {
                resource_id = resource.id;
                reason = "insufficient_finops_data";
                detail =
                    key
                    <> ": coverage "
                    <> fl.show_percent coverage
                    <> " < "
                    <> fl.show_percent th.windows.finops.min_coverage;
              }))
          else (measure_cold key cfg finops_cold coverage (valid points) >>= λ obs. ok (seen obs))
    ]

    -- The end of one round: the key's observation decides whether the loop goes on.
    abbrev pub after_observation :
        String
        → String
        → (List (ColdObservation F) → Result (Verdict F))
        → List (ColdObservation F)
        → Observed F
        → Result (Verdict F)
    after_observation primary key go_on observations (unseen skip) =
        if key == primary then ok (dropped (skip ∷ [])) else go_on observations
    after_observation primary key go_on observations (seen o) =
        if o.cold then go_on (observations ++ (o ∷ [])) else ok (dropped [])

    -- The loop of `evaluate_cold`, with the observations so far.
    unfoldable pub cold_loop :
        (primary : String)
        → Series F
        → Dict String (MetricThreshold F)
        → List (ColdObservation F)
        → Result (Verdict F)
    cold_loop primary series [] observations = ok (all_cold observations)
    cold_loop primary series ((key, cfg) ∷ rest) observations = points_at key series >>= λ points.
        observe_cold points key cfg
        >>= after_observation primary key (cold_loop primary series rest) observations

module _ {F : Type 0} where
  -- `key in series`
  abbrev pub covered : Series F → String → Bool
  covered series key = is_some (Dict.lookup key series)

  -- The FinOps metrics that apply to the resource, in the order of the config.
  unfoldable pub applicable : ResourceTypeThresholds F → Series F → Dict String (MetricThreshold F)
  applicable type_cfg series = filter (λ e. covered series e.0) (finops_metrics type_cfg)

  -- The recommender's inputs: the latest value of every input metric that has one.
  unfoldable pub inputs_from : Dict String (MetricThreshold F) → Series F → Dict String F
  inputs_from [] series = []
  inputs_from ((key, m) ∷ rest) series = elim (Dict.lookup key series) [
    | none ↦ inputs_from rest series
    | some points ↦ elim (latest points) [
      | none ↦ inputs_from rest series
      | some v ↦ (key, v) ∷ inputs_from rest series
    ]
  ]

module _ {F : Type 0} ⦃fl : Float F⦄ where
  unfoldable pub cold_finding :
      Resource F
      → Series F
      → ResourceTypeThresholds F
      → Thresholds F
      → List (ColdObservation F)
      → Result (Option (ColdFinding F) × List Skip)
  cold_finding resource series type_cfg th [] =
      err (exception "IndexError" "list index out of range")
  cold_finding resource series type_cfg th (head ∷ rest) = ok (
    some (record {
      resource = resource;
      metric = head.metric;
      observed = head.value;
      percentile = head.percentile;
      threshold = head.threshold;
      lookback_days = th.windows.finops.lookback_days;
      coverage = head.coverage;
      threshold_source = head.threshold_source;
      observations = head ∷ rest;
      inputs = inputs_from (input_metrics type_cfg) series;
    }),
    [],
  )

  abbrev pub finish_cold :
      Resource F
      → Series F
      → ResourceTypeThresholds F
      → Thresholds F
      → Verdict F
      → Result (Option (ColdFinding F) × List Skip)
  finish_cold resource series type_cfg th (dropped skips) = ok (none, skips)
  finish_cold resource series type_cfg th (all_cold observations) =
      cold_finding resource series type_cfg th observations

  module _ (resource : Resource F) (series : Series F) (type_cfg : ResourceTypeThresholds F)
      (th : Thresholds F) (granularity : Time) where
    -- The part behind `applicable`: its first key is the primary one.
    abbrev pub evaluate_applicable :
        Dict String (MetricThreshold F) → Result (Option (ColdFinding F) × List Skip)
    evaluate_applicable [] = ok (none, [])
    evaluate_applicable ((primary, cfg) ∷ rest) =
        cold_loop resource th granularity primary series ((primary, cfg) ∷ rest) []
        >>= finish_cold resource series type_cfg th

    unfoldable pub evaluate_cold : Result (Option (ColdFinding F) × List Skip)
    evaluate_cold = evaluate_applicable (applicable type_cfg series)
