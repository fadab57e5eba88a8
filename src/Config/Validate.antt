-- ===== src/Config/Validate.antt =====
-- The model validator `ResourceTypeThresholds._one_request_per_raw_metric`.
use claude_azure_o11y.Prelude.{
  Option, none, some, String, List, [], ◌∷◌, Result, ok, err, value_error, ◌>>=◌, ◌==◌, string_eq,
  option_eq, if◌then◌else◌,
}
use claude_azure_o11y.Prelude.Text.{◌<>◌}
use claude_azure_o11y.Prelude.Dict
use claude_azure_o11y.Prelude.Dict.{Dict}
use claude_azure_o11y.Config.{
  MetricThreshold, ResourceTypeThresholds, raw_names, metric_filter, ops_metrics, finops_metrics,
  input_metrics,
}

-- What the first key that names a raw metric asked for: its key, aggregation and filter.
abbrev pub Seen : Type 0
Seen = Dict String (String × String × Option String)

abbrev shown_filter : Option String → String
shown_filter none = "None"
shown_filter (some f) = "'" <> f <> "'"

module _ {F : Type 0} where
  -- One round of the innermost loop, by the entry that `name` has already.
  abbrev pub check_against :
      String
      → MetricThreshold F
      → String
      → Seen
      → Option (String × String × Option String)
      → Result Seen
  check_against key m name seen none =
      ok (Dict.set_default name (key, m.aggregation, metric_filter m) seen)
  check_against key m name seen (some (first_key, first_agg, first_filter)) =
      if first_agg == m.aggregation
      then (if first_filter == metric_filter m
          then ok seen
          else err (
              value_error (
                "metric '"
                <> name
                <> "' is requested with two dimension filters in one run mode: "
                <> first_key
                <> "="
                <> shown_filter first_filter
                <> " and "
                <> key
                <> "="
                <> shown_filter (metric_filter m))))
      else err (
          value_error (
            "metric '" <> name <> "' is requested with two aggregations in one run mode: "
            <> first_key <> "=" <> first_agg <> " and " <> key <> "=" <> m.aggregation))

  unfoldable pub check_name : String → MetricThreshold F → String → Seen → Result Seen
  check_name key m name seen = check_against key m name seen (Dict.lookup name seen)

  unfoldable pub check_names : String → MetricThreshold F → List String → Seen → Result Seen
  check_names key m [] seen = ok seen
  check_names key m (name ∷ names) seen = do
    seen' ← check_name key m name seen
    check_names key m names seen'

  unfoldable pub check_mode : Dict String (MetricThreshold F) → Seen → Result Seen
  check_mode [] seen = ok seen
  check_mode ((key, m) ∷ rest) seen = do
    seen' ← check_names key m (raw_names m) seen
    check_mode rest seen'

  -- `_one_request_per_raw_metric`: the two run modes in turn, each with an empty `seen`.
  unfoldable pub one_request_per_raw_metric :
      ResourceTypeThresholds F → Result (ResourceTypeThresholds F)
  one_request_per_raw_metric t = do
    ops ← check_mode (ops_metrics t) []
    finops ← check_mode (Dict.update (finops_metrics t) (input_metrics t)) []
    ok t
