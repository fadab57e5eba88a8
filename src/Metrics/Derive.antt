-- ===== src/Metrics/Derive.antt =====
-- src/metrics/derive.py
pub mod Points
pub mod Requests
use claude_azure_o11y.Prelude.{
  ℕ, ◌*◌, Bool, true, false, ◌||◌, ◌&&◌, Option, none, some, String, List, [], ◌∷◌, map, Result, ok,
  err, value_error, ◌>>=◌, map_result, ◌==◌, string_eq, nat_eq, if◌then◌else◌,
}
use claude_azure_o11y.Prelude.Text.{◌<>◌, or_text}
use claude_azure_o11y.Prelude.Dict
use claude_azure_o11y.Prelude.Dict.{Dict}
use claude_azure_o11y.Float.{Float}
use claude_azure_o11y.Models.{Resource, MetricPoint, MetricRequest, Series, Time, Value, null}
use claude_azure_o11y.Models.Props.{prop, truth, float_of}
use claude_azure_o11y.Config.{
  MetricThreshold, ResourceTypeThresholds, DimensionFilter, raw_names, metric_filter, applies,
  ops_metrics, finops_metrics, input_metrics,
}
use claude_azure_o11y.Evaluate.Percentile.{item}

pub data RunMode : Type 0 where
  ops finops : RunMode

pub data MetricSource : Type 0 where
  monitor inventory : MetricSource

abbrev pub point : {F : Type 0} → Time → Option F → MetricPoint F
point ts v = record { timestamp = ts; value = v }

module _ {F : Type 0} where
  -- `{p.timestamp: p.value for p in points}`
  unfoldable pub by_time : List (MetricPoint F) → Dict Time (Option F) → Dict Time (Option F)
  by_time [] d = d
  by_time (p ∷ points) d = by_time points (Dict.insert p.timestamp p.value d)

  abbrev pub joined : Option (Option F) → Option F
  joined none = none
  joined (some v) = v

module _ {F : Type 0} ⦃fl : Float F⦄ where
  -- A quotient as a percentage, to two digits; none without both sides or with a divisor `<= 0`.
  unfoldable pub ratio_of : Option F → Option F → Option F
  ratio_of none d = none
  ratio_of (some x) none = none
  ratio_of (some x) (some d) =
      if fl.le d (fl.of_nat 0)
      then none
      else some (fl.round (fl.mul (fl.div x d) (fl.of_nat 100)) 2)

  unfoldable pub ratio_percent :
      (numerator denominator : List (MetricPoint F)) → List (MetricPoint F)
  unfolding by_time ratio_of
  ratio_percent numerator denominator =
      let den = by_time denominator [] in
      map (λ p. point p.timestamp (ratio_of p.value (joined (Dict.lookup p.timestamp den))))
        numerator

  abbrev on_value : (F → F) → MetricPoint F → MetricPoint F
  on_value f p = point p.timestamp (elim p.value [ none ↦ none | some x ↦ some (f x) ])

  abbrev blank : MetricPoint F → MetricPoint F
  blank p = point p.timestamp none

  unfoldable pub bytes_per_second_percent :
      List (MetricPoint F) → (interval capacity : F) → List (MetricPoint F)
  bytes_per_second_percent totals interval capacity =
      if fl.le interval (fl.of_nat 0) || fl.le capacity (fl.of_nat 0)
      then map blank totals
      else map
          (on_value
            (λ x. fl.round (fl.mul (fl.div (fl.div x interval) capacity) (fl.of_nat 100)) 2))
          totals

  unfoldable pub percent_of_capacity : List (MetricPoint F) → (capacity : F) → List (MetricPoint F)
  percent_of_capacity points capacity =
      if fl.le capacity (fl.of_nat 0)
      then map blank points
      else map (on_value (λ x. fl.round (fl.mul (fl.div x capacity) (fl.of_nat 100)) 2)) points

  unfoldable pub zero_missing : List (MetricPoint F) → List (MetricPoint F)
  zero_missing points =
      map (λ p. point p.timestamp (some (elim p.value [ none ↦ fl.of_nat 0 | some x ↦ x ]))) points

module _ {F : Type 0} where
  unfoldable pub wanted_metrics :
      ResourceTypeThresholds F → RunMode → Dict String (MetricThreshold F)
  wanted_metrics type_cfg ops = ops_metrics type_cfg
  wanted_metrics type_cfg finops = Dict.update (finops_metrics type_cfg) (input_metrics type_cfg)

  -- `MetricRequest(n, cfg.aggregation, cfg.filter, roll_up_by)`
  unfoldable pub request_of : MetricThreshold F → String → MetricRequest
  request_of cfg n = record {
    name = n;
    aggregation = cfg.aggregation;
    filter = metric_filter cfg;
    roll_up_by = elim cfg.dimension [ none ↦ none | some d ↦ some d.name ];
  }

  unfoldable pub request_names :
      MetricThreshold F → List String → Dict String MetricRequest → Dict String MetricRequest
  request_names cfg [] seen = seen
  request_names cfg (n ∷ names) seen =
      request_names cfg names (Dict.set_default n (request_of cfg n) seen)

  unfoldable pub request_all :
      Dict String (MetricThreshold F) → Dict String MetricRequest → Dict String MetricRequest
  unfolding request_names
  request_all [] seen = seen
  request_all ((key, cfg) ∷ rest) seen = request_all rest (request_names cfg (raw_names cfg) seen)

  unfoldable pub requests_for : ResourceTypeThresholds F → RunMode → List MetricRequest
  requests_for type_cfg mode = Dict.values (request_all (wanted_metrics type_cfg mode) [])

-- `raw.get(name, [])`
abbrev pub series_of : {F : Type 0} → Series F → String → List (MetricPoint F)
series_of raw name = elim (Dict.lookup name raw) [ none ↦ [] | some ps ↦ ps ]

-- `granularity.total_seconds()`
abbrev total_seconds : {F : Type 0} ⦃fl : Float F⦄ → Time → F
total_seconds ⦃fl = fl⦄ t = fl.div (fl.of_nat t) (fl.of_nat 1_000_000)

module _ {F : Type 0} ⦃fl : Float F⦄ (resource : Resource F) (raw : Series F)
    (granularity now : Time) where
  -- The series of one inventory-sourced key.
  unfoldable pub inventory_points : MetricThreshold F → Result (List (MetricPoint F))
  inventory_points cfg = elim cfg.inputs [
    | [] ↦ ok []
    | name ∷ names ↦ elim (prop resource name null) [
      | null ↦ ok []
      | v ↦ float_of v >>= λ x. ok (point now (some x) ∷ [])
    ]
  ]

  -- `capacity` of a key with a capacity derivation; none is `continue`.
  unfoldable pub capacity_points :
      MetricThreshold F
      → String
      → List (List (MetricPoint F))
      → Result (Option (List (MetricPoint F)))
  capacity_points cfg how inputs =
      let capacity = prop resource (elim cfg.capacity_prop [ none ↦ "" | some name ↦ name ]) null in
      if truth capacity
      then (item inputs 0 >>= λ first. float_of capacity >>= λ c. ok (
          some (
            if how == "percent_of_capacity"
            then percent_of_capacity first c
            else bytes_per_second_percent first (total_seconds granularity) c)))
      else ok none

  -- The series of one key of a monitored type.
  unfoldable pub monitor_points :
      String → MetricThreshold F → Result (Option (List (MetricPoint F)))
  unfolding capacity_points
  monitor_points key cfg = elim cfg.derive [
    | none ↦
        let points = series_of raw cfg.metric_name in
        ok (some (if cfg.missing_as_zero then zero_missing points else points))
    | some how ↦
        let inputs =
          map
            (λ name.
              if cfg.missing_as_zero then zero_missing (series_of raw name) else series_of raw name)
            cfg.inputs in
        if how == "ratio_percent"
        then (item inputs 0 >>= λ a. item inputs 1 >>= λ b. ok (some (ratio_percent a b)))
        else if how == "bytes_per_second_percent" || how == "percent_of_capacity"
        then capacity_points cfg how inputs
        else err (value_error ("unknown derive '" <> how <> "' for metric " <> key))
  ]

  unfoldable pub source_points :
      MetricSource → String → MetricThreshold F → Result (Option (List (MetricPoint F)))
  unfolding inventory_points monitor_points
  source_points inventory key cfg = inventory_points cfg >>= λ ps. ok (some ps)
  source_points monitor key cfg = monitor_points key cfg

  unfoldable pub resolve_from :
      MetricSource → Dict String (MetricThreshold F) → Series F → Result (Series F)
  unfolding source_points
  resolve_from source [] out = ok out
  resolve_from source ((key, cfg) ∷ rest) out =
      let skip = resolve_from source rest out in
      if applies cfg resource
      then (source_points source key cfg >>= λ found. elim found [
        | none ↦ resolve_from source rest out
        | some points ↦ resolve_from source rest (Dict.insert key points out)
      ])
      else skip

module _ {F : Type 0} ⦃fl : Float F⦄ where
  unfoldable pub resolve_series :
      Resource F
      → ResourceTypeThresholds F
      → Series F
      → RunMode
      → (granularity now : Time) → MetricSource
      → Result (Series F)
  unfolding resolve_from
  resolve_series resource type_cfg raw mode granularity now source =
      resolve_from resource raw granularity now source (wanted_metrics type_cfg mode) []
