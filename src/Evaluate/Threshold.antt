-- ===== src/Evaluate/Threshold.antt =====
-- The thresholds and the windows of src/evaluate/metric.py.
use claude_azure_o11y.Prelude.{
  ℕ, ◌/◌, Option, none, some, String, List, [], ◌∷◌, Result, ok, err, zero_division, length, ◌==◌,
  string_eq, nat_eq, if◌then◌else◌,
}
use claude_azure_o11y.Prelude.Text.{lower, ◌<>◌}
use claude_azure_o11y.Prelude.Dict.{Dict}
use claude_azure_o11y.Float.{Float, max_float}
use claude_azure_o11y.Models.{MetricPoint, ThresholdSource, config, tag_override, Time}
use claude_azure_o11y.Config.{Reduction, mean, largest, total}

module _ {F : Type 0} ⦃fl : Float F⦄ where
  abbrev pub parsed : Option F → F → F × ThresholdSource
  parsed none default = (default, config)
  parsed (some x) default = (x, tag_override)

  -- The loop of `resolve_threshold_with_source`: the first tag of that name decides.
  unfoldable pub resolve_from : Dict String String → String → F → F × ThresholdSource
  resolve_from [] wanted default = (default, config)
  resolve_from ((k, v) ∷ tags) wanted default =
      if lower k == wanted
      then parsed (fl.parse_float v) default
      else resolve_from tags wanted default

  unfoldable pub resolve_threshold_with_source :
      Dict String String → (prefix metric_key kind : String) → F → F × ThresholdSource
  unfolding resolve_from
  resolve_threshold_with_source tags prefix metric_key kind default =
      resolve_from tags (lower (prefix <> metric_key <> "-" <> kind)) default

  unfoldable pub resolve_threshold : Dict String String → (prefix metric_key kind : String) → F → F
  unfolding resolve_threshold_with_source
  resolve_threshold tags prefix metric_key kind default =
      (resolve_threshold_with_source tags prefix metric_key kind default).0

-- `int(lookback / granularity)`, both in microseconds.
unfoldable pub expected_points : Time → Time → Result ℕ
expected_points lookback granularity =
    if granularity == 0 then err zero_division else ok (lookback / granularity)

module _ {F : Type 0} where
  -- `_valid`
  unfoldable pub valid : List (MetricPoint F) → List F
  valid [] = []
  valid (p ∷ points) = let rest = valid points in elim p.value [ none ↦ rest | some x ↦ x ∷ rest ]

  -- `_latest`: the last value that is there.
  unfoldable pub latest : List (MetricPoint F) → Option F
  latest [] = none
  latest (p ∷ points) = elim (latest points) [ none ↦ p.value | some x ↦ some x ]

module _ {F : Type 0} ⦃fl : Float F⦄ where
  -- `max(values)` of `first ∷ rest`
  unfoldable pub largest_of : F → List F → F
  largest_of best [] = best
  largest_of best (x ∷ xs) = largest_of (max_float best x) xs

  -- `reduce_window`, of a window that is not empty.
  unfoldable pub reduce_window : F → List F → Reduction → F
  unfolding largest_of
  reduce_window first rest largest = largest_of first rest
  reduce_window first rest total = fl.sum_floats (first ∷ rest)
  reduce_window first rest mean =
      fl.div (fl.sum_floats (first ∷ rest)) (fl.of_nat (length (first ∷ rest)))
