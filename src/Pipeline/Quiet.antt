-- ===== src/Pipeline/Quiet.antt =====
-- `_run_type` leaves the counts of the write alone.
use claude_azure_o11y.Prelude.{
  ℕ, refl, Bool, true, false, Option, none, some, Result, ok, err, String, List, [], ◌++◌, ◌+◌,
  is_empty, string_eq, map_result, length,
}
use claude_azure_o11y.Prelude.Text.{is_text}
use claude_azure_o11y.Prelude.Dict
use claude_azure_o11y.Prelude.Dict.{Dict}
use claude_azure_o11y.Float.{Float}
use claude_azure_o11y.Models.{
  Resource, Series, Skip, Time, MetricPoint, Recommendation, ColdFinding,
}
use claude_azure_o11y.Models.Summary.{RunSummary, for_type, update_type}
use claude_azure_o11y.Config.{ResourceTypeThresholds}
use claude_azure_o11y.Config.Settings.{Settings, scope}
use claude_azure_o11y.Inventory.Filters.{FilterResult, filter_resources}
use claude_azure_o11y.Metrics.Derive.{
  RunMode, ops, finops, MetricSource, monitor, inventory, requests_for, resolve_series,
}
use claude_azure_o11y.Evaluate.Cold.{evaluate_cold}
use claude_azure_o11y.Notify.{RunContext}
use claude_azure_o11y.Pipeline.{AppConfig, ResourceTypeSpec, Clients, MetricWindow}
use claude_azure_o11y.Pipeline.Action.{lift}
use claude_azure_o11y.Pipeline.Fetch.{ChunkResult}
use claude_azure_o11y.Pipeline.TypeRun.{
  at_key, log_skips, keep_for, merge_answer, gather_raw, hot_rows, evaluate_key, priced,
  projected_price, recommended_row, cold_rows, rows_for, evaluate_resource, evaluate_kept,
  count_filtered, count_inventory, count_findings, count_evaluated, run_type,
}
use claude_azure_o11y.Pipeline.Counters.{
  Keeps, Keeps-trans, IsQuiet, bind-IsQuiet, pure-IsQuiet, lift-IsQuiet, if-IsQuiet, modify-IsQuiet,
  collect-IsQuiet, for_type-Keeps, update_type-Keeps, log_skips-Keeps, sizeable-Keeps,
  merge_chunks-Keeps,
}

module _ {F : Type 0} where
  keep_for-IsQuiet :
      (mode : RunMode) (finops_skip : Resource F → Option Skip) (kept : List (Resource F))
      → IsQuiet (keep_for mode finops_skip kept)
  unfolding IsQuiet
  keep_for-IsQuiet ops finops_skip kept s = (refl, refl)
  keep_for-IsQuiet finops finops_skip kept s = sizeable-Keeps finops_skip kept s

  count_filtered-Keeps :
      (kind : String) (filtered : FilterResult F) (s : RunSummary F)
      → Keeps s (count_filtered kind filtered s)
  unfolding count_filtered
  count_filtered-Keeps kind filtered s =
      let t = update_type kind (λ t. record t { kept = length filtered.kept }) s in
      let u = record t {
        ignored_rg_count = t.ignored_rg_count + filtered.ignored_rg_count;
        excluded = t.excluded ++ filtered.excluded;
      } in
      Keeps-trans s u (log_skips filtered.skips u)
        (update_type-Keeps kind (λ t. record t { kept = length filtered.kept }) s)
        (log_skips-Keeps filtered.skips u)

  merge_answer-IsQuiet :
      (kind : String) (kept : List (Resource F)) (answer : Result (List (ChunkResult F)))
      → IsQuiet (merge_answer kind kept answer)
  unfolding IsQuiet
  merge_answer-IsQuiet kind kept (err x) s = (refl, refl)
  merge_answer-IsQuiet kind kept (ok results) s = merge_chunks-Keeps kind results [] s

  count_evaluated-Keeps : (kind : String) (s : RunSummary F) → Keeps s (count_evaluated kind s)
  count_evaluated-Keeps kind s =
      update_type-Keeps kind (λ t. record t { evaluated = t.evaluated + 1 }) s

  count_inventory-Keeps :
      (kind : String) (n : ℕ) (s : RunSummary F) → Keeps s (count_inventory kind n s)
  count_inventory-Keeps kind n s = update_type-Keeps kind (λ t. record t { inventory_total = n }) s

  count_findings-Keeps :
      (kind : String) (n : ℕ) (s : RunSummary F) → Keeps s (count_findings kind n s)
  unfolding count_findings
  count_findings-Keeps kind n s = update_type-Keeps kind (λ t. record t { findings = n }) s

module _ {F X : Type 0} ⦃fl : Float F⦄ (parse_duration : String → Result Time)
    (is_email : String → Bool) (settings : Settings) (app : AppConfig F X) (clients : Clients F)
    (mode : RunMode) (now : Time) (run_ctx : RunContext) (kind : String)
    (spec : ResourceTypeSpec F X) (type_cfg : ResourceTypeThresholds F) where
  gather_raw-IsQuiet :
      (source : MetricSource) (kept : List (Resource F)) (window : MetricWindow)
      → IsQuiet (
          gather_raw parse_duration is_email settings app clients mode now run_ctx kind spec
            type_cfg source kept window)
  unfolding gather_raw
  gather_raw-IsQuiet inventory kept window = pure-IsQuiet F _
  gather_raw-IsQuiet monitor kept window =
      if-IsQuiet (is_empty (requests_for type_cfg mode)) _ _ (pure-IsQuiet F _)
        (merge_answer-IsQuiet kind kept _)

  module _ (window : MetricWindow) (granularity : String) where
    evaluate_key-IsQuiet :
        (r : Resource F) (e : String × List (MetricPoint F))
        → IsQuiet (
            evaluate_key parse_duration is_email settings app clients mode now run_ctx kind spec
              type_cfg window granularity r e)
    unfolding evaluate_key
    evaluate_key-IsQuiet r (key, points) =
        bind-IsQuiet _ _ (lift-IsQuiet F (at_key type_cfg.metrics key)) (λ cfg.
          bind-IsQuiet _ _ (lift-IsQuiet F _) (λ judged.
            bind-IsQuiet _ _ (modify-IsQuiet (log_skips judged.1) (log_skips-Keeps judged.1)) (λ _.
              pure-IsQuiet F (
                hot_rows parse_duration is_email settings app clients mode now run_ctx kind spec
                  type_cfg window granularity key cfg judged.0))))

    projected_price-IsQuiet :
        (r : Resource F) (os_type : String) (target : Option String)
        → IsQuiet (
            projected_price parse_duration is_email settings app clients mode now run_ctx kind spec
              type_cfg window granularity r os_type target)
    projected_price-IsQuiet r os_type none = pure-IsQuiet F _
    projected_price-IsQuiet r os_type (some target) =
        if-IsQuiet (is_text target) _ _ (lift-IsQuiet F _) (lift-IsQuiet F _)

    priced-IsQuiet :
        (b : Bool) (r : Resource F) (rec : Recommendation F)
        → IsQuiet (
            priced parse_duration is_email settings app clients mode now run_ctx kind spec type_cfg
              window granularity b r rec)
    unfolding priced
    priced-IsQuiet true r rec = bind-IsQuiet _ _ (lift-IsQuiet F _) (λ current.
        bind-IsQuiet _ _ (projected_price-IsQuiet r _ rec.target_sku) (λ _. pure-IsQuiet F _))
    priced-IsQuiet false r rec = pure-IsQuiet F _

    recommended_row-IsQuiet :
        (r : Resource F) (cold : ColdFinding F)
        (recommend : Option (ColdFinding F → AppConfig F X → Result (Recommendation F)))
        → IsQuiet (
            recommended_row parse_duration is_email settings app clients mode now run_ctx kind spec
              type_cfg window granularity r cold recommend)
    unfolding recommended_row
    recommended_row-IsQuiet r cold none = pure-IsQuiet F _
    recommended_row-IsQuiet r cold (some recommend) = bind-IsQuiet _ _ (lift-IsQuiet F _) (λ rec.
        bind-IsQuiet _ _ (priced-IsQuiet spec.priced r rec)
          (λ full. bind-IsQuiet _ _ (lift-IsQuiet F _) (λ _. pure-IsQuiet F _)))

    rows_for-IsQuiet :
        (m : RunMode) (r : Resource F) (series : Series F)
        → IsQuiet (
            rows_for parse_duration is_email settings app clients mode now run_ctx kind spec
              type_cfg window granularity m r series)
    unfolding rows_for cold_rows
    rows_for-IsQuiet ops r series = collect-IsQuiet _ series (evaluate_key-IsQuiet r)
    rows_for-IsQuiet finops r series =
        bind-IsQuiet (lift (evaluate_cold r series type_cfg app.thresholds window.granularity)) _
          (lift-IsQuiet F _)
          (λ judged.
            bind-IsQuiet _ _ (modify-IsQuiet (log_skips judged.1) (log_skips-Keeps judged.1))
              (λ _. rows judged.0))
      where
        rows :
            (found : Option (ColdFinding F))
            → IsQuiet (
                cold_rows parse_duration is_email settings app clients mode now run_ctx kind spec
                  type_cfg window granularity r found)
        rows none = pure-IsQuiet F _
        rows (some cold) = recommended_row-IsQuiet r cold spec.recommend

    evaluate_resource-IsQuiet :
        (raw : Dict String (Series F)) (r : Resource F)
        → IsQuiet (
            evaluate_resource parse_duration is_email settings app clients mode now run_ctx kind
              spec type_cfg window granularity raw r)
    unfolding evaluate_resource
    evaluate_resource-IsQuiet raw r =
        bind-IsQuiet _ _ (modify-IsQuiet (count_evaluated kind) (count_evaluated-Keeps kind)) (λ _.
          bind-IsQuiet _ _
            (lift-IsQuiet F (
              resolve_series r type_cfg (elim (Dict.lookup r.id raw) [ none ↦ [] | some x ↦ x ])
                mode window.granularity now spec.metric_source))
            (rows_for-IsQuiet mode r))

  evaluate_kept-IsQuiet :
      (filtered : List (Resource F))
      → IsQuiet (
          evaluate_kept parse_duration is_email settings app clients mode now run_ctx kind spec
            type_cfg filtered)
  unfolding evaluate_kept
  evaluate_kept-IsQuiet filtered =
      bind-IsQuiet _ _ (keep_for-IsQuiet mode spec.finops_skip filtered) (λ kept.
        bind-IsQuiet _ _ (lift-IsQuiet F _) (λ window.
          bind-IsQuiet _ _ (gather_raw-IsQuiet spec.metric_source kept window) (λ gathered.
            collect-IsQuiet _ gathered.1 (evaluate_resource-IsQuiet window _ gathered.0))))

module _ {F X : Type 0} ⦃fl : Float F⦄ (parse_duration : String → Result Time)
    (is_email : String → Bool) (types : Dict String (ResourceTypeSpec F X)) (settings : Settings)
    (app : AppConfig F X) (clients : Clients F) (mode : RunMode) (now : Time)
    (run_ctx : RunContext) where
  pub run_type-IsQuiet :
      (kind : String)
      → IsQuiet (run_type parse_duration is_email types settings app clients mode now run_ctx kind)
  unfolding run_type
  run_type-IsQuiet kind = bind-IsQuiet (lift (at_key types kind)) _ (lift-IsQuiet F _) (λ spec.
      bind-IsQuiet (lift (at_key app.thresholds.resource_types kind)) _ (lift-IsQuiet F _)
        (λ type_cfg. bind-IsQuiet _ _ (modify-IsQuiet (for_type kind) (for_type-Keeps kind)) (λ _.
          bind-IsQuiet (lift (at_key app.rules kind)) _ (lift-IsQuiet F _) (λ rules.
            bind-IsQuiet (lift (clients.list_resources kind (scope settings))) _ (lift-IsQuiet F _)
              (λ listed.
                bind-IsQuiet (lift (map_result (λ r. spec.enrich r rules) listed)) _
                  (lift-IsQuiet F _)
                  (λ resources.
                    bind-IsQuiet _ _
                      (modify-IsQuiet (count_inventory kind (length resources))
                        (count_inventory-Keeps kind (length resources)))
                      (λ _.
                        let filtered =
                          filter_resources app.thresholds.tags (app.patterns_for settings.mg_id)
                            spec.active resources in
                        bind-IsQuiet _ _
                          (modify-IsQuiet (count_filtered kind filtered)
                            (count_filtered-Keeps kind filtered))
                          (λ _.
                            bind-IsQuiet _ _
                              (evaluate_kept-IsQuiet parse_duration is_email settings app clients
                                mode now run_ctx kind spec type_cfg filtered.kept)
                              (λ rows.
                                bind-IsQuiet _ _
                                  (modify-IsQuiet (count_findings kind (length rows))
                                    (count_findings-Keeps kind (length rows)))
                                  (λ _. pure-IsQuiet F rows))))))))))
