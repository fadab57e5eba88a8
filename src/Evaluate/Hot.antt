-- ===== src/Evaluate/Hot.antt =====
-- `evaluate_hot`: the Ops side of src/evaluate/metric.py.
pub mod Breach
use claude_azure_o11y.Prelude.{
  Bool, Option, none, some, String, List, [], ◌∷◌, Result, ok, err, assertion_error, if◌then◌else◌,
}
use claude_azure_o11y.Prelude.Text.{◌<>◌}
use claude_azure_o11y.Float.{Float, ge}
use claude_azure_o11y.Models.{Resource, MetricPoint, HotAlert, Skip}
use claude_azure_o11y.Config.{MetricThreshold, Thresholds, HotWhen, above, below}
use claude_azure_o11y.Evaluate.Threshold.{resolve_threshold_with_source, valid, reduce_window}

module _ {F : Type 0} ⦃fl : Float F⦄ where
  -- At or beyond the threshold, in the direction of `hot_when`.
  unfoldable pub breached : HotWhen → F → F → Bool
  breached above observed threshold = ge observed threshold
  breached below observed threshold = fl.le observed threshold

  module _ (resource : Resource F) (key : String) (cfg : MetricThreshold F)
      (th : Thresholds F) where
    -- The part behind the check of `values`.
    unfoldable pub judge_hot : F → F → List F → Option (HotAlert F) × List Skip
    unfolding breached
    judge_hot ops_hot first rest =
        let (threshold, source) =
          resolve_threshold_with_source resource.tags th.tags.threshold_prefix key "hot" ops_hot in
        let observed = fl.round (reduce_window first rest cfg.reduce) 2 in
        if breached cfg.hot_when observed threshold
        then (
          some (record {
            resource = resource;
            metric = key;
            observed = observed;
            threshold = threshold;
            lookback_minutes = th.windows.ops.lookback_minutes;
            threshold_source = source;
          }),
          [],
        )
        else (none, [])

    abbrev pub no_ops_data : Skip
    no_ops_data = record {
      resource_id = resource.id;
      reason = "no_ops_data";
      detail = "no datapoints in ops window";
    }

    -- The part behind the assertion, by the values of the window.
    abbrev pub judge_values : F → List F → Option (HotAlert F) × List Skip
    judge_values ops_hot [] = (none, no_ops_data ∷ [])
    judge_values ops_hot (first ∷ rest) = judge_hot ops_hot first rest

    unfoldable pub evaluate_hot : List (MetricPoint F) → Result (Option (HotAlert F) × List Skip)
    unfolding judge_hot
    evaluate_hot points = elim cfg.ops_hot [
      | none ↦ err (assertion_error (key <> " has no ops_hot"))
      | some ops_hot ↦ ok (judge_values ops_hot (valid points))
    ]
