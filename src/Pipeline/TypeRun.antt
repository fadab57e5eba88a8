-- ===== src/Pipeline/TypeRun.antt =====
-- `_run_type`: one resource type of a run.
use claude_azure_o11y.Prelude.{
  ℕ, ◌+◌, Bool, true, false, Option, none, some, String, List, [], ◌∷◌, ◌++◌, filter, length,
  is_empty, Result, ok, err, key_error, map_result, string_eq, if◌then◌else◌,
}
use claude_azure_o11y.Prelude.Text.{is_text}
use claude_azure_o11y.Prelude.Dict
use claude_azure_o11y.Prelude.Dict.{Dict}
use claude_azure_o11y.Float.{Float}
use claude_azure_o11y.Models.{
  Resource, Series, MetricPoint, Skip, HotAlert, ColdFinding, Recommendation, Decimal, Time, text,
  with_pricing, with_note,
}
use claude_azure_o11y.Models.Props.{prop, str_of}
use claude_azure_o11y.Models.Summary.{RunSummary, count_skip, for_type, update_type}
use claude_azure_o11y.Config.{ResourceTypeThresholds, MetricThreshold, is_some}
use claude_azure_o11y.Config.Settings.{Settings, scope}
use claude_azure_o11y.Inventory.Filters.{FilterResult, filter_resources}
use claude_azure_o11y.Metrics.Derive.{
  RunMode, ops, finops, MetricSource, monitor, inventory, requests_for, resolve_series,
}
use claude_azure_o11y.Evaluate.Hot.{evaluate_hot}
use claude_azure_o11y.Evaluate.Cold.{evaluate_cold}
use claude_azure_o11y.Notify.{Row, RunContext, ops_row, finops_row}
use claude_azure_o11y.Pipeline.{
  AppConfig, ResourceTypeSpec, Clients, MetricWindow, ops_window, finops_window, metric_context,
  or_default,
}
use claude_azure_o11y.Pipeline.Action.{Action, pure, lift, modify, collect, ◌>>=◌, ◌>>◌}
use claude_azure_o11y.Pipeline.Fetch.{ChunkResult, fetched, failed, fetch_all}

abbrev pub unpriced_note : String
unpriced_note = "Pricing not implemented for this resource type."

-- `d[key]`
abbrev pub at_key : {V : Type 0} → Dict String V → String → Result V
at_key d key = elim (Dict.lookup key d) [ none ↦ err (key_error key) | some v ↦ ok v ]

module _ {F : Type 0} where
  -- `_log_skip`, of each skip.
  unfoldable pub log_skips : List Skip → RunSummary F → RunSummary F
  log_skips [] s = s
  log_skips (skip ∷ skips) s = log_skips skips (count_skip skip.reason s)

  -- The resources that FinOps can size; the others are counted as skips.
  unfoldable pub sizeable :
      (Resource F → Option Skip)
      → List (Resource F)
      → RunSummary F
      → List (Resource F) × RunSummary F
  sizeable finops_skip [] s = ([], s)
  sizeable finops_skip (r ∷ rest) s = elim (finops_skip r) [
    | none ↦ let (kept, s') = sizeable finops_skip rest s in (r ∷ kept, s')
    | some skip ↦ sizeable finops_skip rest (count_skip skip.reason s)
  ]

  abbrev pub keep_for :
      RunMode → (Resource F → Option Skip) → List (Resource F) → Action F (List (Resource F))
  keep_for ops finops_skip kept s = (ok kept, s)
  keep_for finops finops_skip kept s =
      let (sized, s') = sizeable finops_skip kept s in (ok sized, s')

  unfoldable pub count_failed : String → String → List (Resource F) → RunSummary F → RunSummary F
  count_failed kind error [] s = s
  count_failed kind error (r ∷ rest) s = count_failed kind error rest (count_skip "chunk_failed" s)

  abbrev pub chunk_failure : String → RunSummary F → RunSummary F
  chunk_failure kind s =
      let t = update_type kind (λ t. record t { chunk_failures = t.chunk_failures + 1 }) s in
      record t { chunk_failures = t.chunk_failures + 1 }

  -- The loop over the chunks: the series of those that came, the counts of those that failed.
  unfoldable pub merge_chunks :
      String
      → List (ChunkResult F)
      → Dict String (Series F)
      → RunSummary F
      → Dict String (Series F) × RunSummary F
  unfolding count_failed
  merge_chunks kind [] raw s = (raw, s)
  merge_chunks kind (fetched resources series ∷ rest) raw s =
      merge_chunks kind rest (Dict.update raw series) s
  merge_chunks kind (failed resources error ∷ rest) raw s =
      merge_chunks kind rest raw (count_failed kind error resources (chunk_failure kind s))

  abbrev pub count_evaluated : String → RunSummary F → RunSummary F
  count_evaluated kind s =
      let t = update_type kind (λ t. record t { evaluated = t.evaluated + 1 }) s in
      record t { evaluated = t.evaluated + 1 }

  -- The series of the chunks, and the resources that have one.
  abbrev pub merge_answer :
      String
      → List (Resource F)
      → Result (List (ChunkResult F))
      → Action F (Dict String (Series F) × List (Resource F))
  merge_answer kind kept (err x) s = (err x, s)
  merge_answer kind kept (ok results) s =
      let (raw, s') = merge_chunks kind results [] s in
      (ok (raw, filter (λ r. is_some (Dict.lookup r.id raw)) kept), s')

module _ {F X : Type 0} ⦃fl : Float F⦄ (parse_duration : String → Result Time)
    (is_email : String → Bool) (settings : Settings) (app : AppConfig F X) (clients : Clients F)
    (mode : RunMode) (now : Time) (run_ctx : RunContext) (kind : String)
    (spec : ResourceTypeSpec F X) (type_cfg : ResourceTypeThresholds F) where
  -- The window of this mode, and the grain that is written to the rows.
  unfoldable pub window_for : RunMode → Result MetricWindow × String
  window_for ops = (
    ops_window parse_duration app.thresholds.windows.ops now type_cfg.granularity.ops,
    or_default type_cfg.granularity.ops app.thresholds.windows.ops.granularity,
  )
  window_for finops = (
    finops_window parse_duration app.thresholds.windows.finops now type_cfg.granularity.finops,
    or_default type_cfg.granularity.finops app.thresholds.windows.finops.granularity,
  )

  -- The fetch of a monitored type that requests a metric, and which resources are evaluated.
  unfoldable pub gather_raw :
      MetricSource
      → List (Resource F)
      → MetricWindow
      → Action F (Dict String (Series F) × List (Resource F))
  unfolding merge_chunks
  gather_raw inventory kept window = pure ([], kept)
  gather_raw monitor kept window =
      let requests = requests_for type_cfg mode in
      if is_empty requests
      then pure ([], kept)
      else merge_answer kind kept (
          fetch_all clients settings.max_concurrency settings.batch_size kept type_cfg.namespace
            requests window)

  module _ (window : MetricWindow) (granularity : String) where
    -- The row of an alert.
    abbrev pub hot_rows : String → MetricThreshold F → Option (HotAlert F) → List (Row F)
    hot_rows key cfg none = []
    hot_rows key cfg (some hot) =
        ops_row is_email hot run_ctx
          (metric_context type_cfg key cfg spec.metric_source window granularity)
        ∷ []

    -- One key of one resource on an Ops run.
    unfoldable pub evaluate_key :
        Resource F → String × List (MetricPoint F) → Action F (List (Row F))
    evaluate_key r (key, points) = do
      cfg ← lift (at_key type_cfg.metrics key)
      judged ← lift (evaluate_hot r key cfg app.thresholds points)
      modify (log_skips judged.1)
      pure (hot_rows key cfg judged.0)

    abbrev pub projected_price : Resource F → String → Option String → Action F (Option Decimal)
    projected_price r os_type none = pure none
    projected_price r os_type (some target) =
        if is_text target then lift (clients.monthly_price r.location target os_type) else pure none

    -- The cost columns of a priced type, and the note of the others.
    unfoldable pub priced : Bool → Resource F → Recommendation F → Action F (Recommendation F)
    priced true r rec =
        let os_type = str_of (prop r "os_type" (text "")) in
        lift (clients.monthly_price r.location r.sku os_type) >>= λ current.
        projected_price r os_type rec.target_sku >>= λ projected.
        pure (with_pricing rec current projected)
    priced false r rec = pure (with_note rec unpriced_note)

    -- The row of one finding, with the type's recommender.
    unfoldable pub recommended_row :
        Resource F
        → ColdFinding F
        → Option (ColdFinding F → AppConfig F X → Result (Recommendation F))
        → Action F (List (Row F))
    unfolding priced
    recommended_row r cold none = pure []
    recommended_row r cold (some recommend) = lift (recommend cold app) >>= λ rec.
        priced spec.priced r rec >>= λ full. lift (at_key type_cfg.metrics cold.metric) >>= λ cfg.
        pure (
          finops_row is_email full run_ctx
            (metric_context type_cfg cold.metric cfg spec.metric_source window granularity)
          ∷ [])

    unfoldable pub cold_rows : Resource F → Option (ColdFinding F) → Action F (List (Row F))
    cold_rows r none = pure []
    cold_rows r (some cold) = recommended_row r cold spec.recommend

    unfoldable pub rows_for : RunMode → Resource F → Series F → Action F (List (Row F))
    unfolding evaluate_key cold_rows
    rows_for ops r series = collect (evaluate_key r) series
    rows_for finops r series = do
      judged ← lift (evaluate_cold r series type_cfg app.thresholds window.granularity)
      modify (log_skips judged.1)
      cold_rows r judged.0

    -- The body of the loop over the evaluable resources.
    unfoldable pub evaluate_resource : Dict String (Series F) → Resource F → Action F (List (Row F))
    unfolding rows_for
    evaluate_resource raw r = do
      modify (count_evaluated kind)
      series ← lift (
          resolve_series r type_cfg (elim (Dict.lookup r.id raw) [ none ↦ [] | some x ↦ x ]) mode
            window.granularity now spec.metric_source)
      rows_for mode r series

  -- Section 2 and 3 of `_run_type`, for the resources that the filters kept.
  unfoldable pub evaluate_kept : List (Resource F) → Action F (List (Row F))
  unfolding window_for gather_raw evaluate_resource
  evaluate_kept filtered = do
    kept ← keep_for mode spec.finops_skip filtered
    window ← lift (window_for mode).0
    gathered ← gather_raw spec.metric_source kept window
    collect (evaluate_resource window (window_for mode).1 gathered.0) gathered.1

module _ {F : Type 0} where
  abbrev pub count_inventory : String → ℕ → RunSummary F → RunSummary F
  count_inventory kind total s =
      let t = update_type kind (λ t. record t { inventory_total = total }) s in
      record t { inventory_total = t.inventory_total + total }

  unfoldable pub count_filtered : String → FilterResult F → RunSummary F → RunSummary F
  unfolding log_skips
  count_filtered kind filtered s =
      let t = update_type kind (λ t. record t { kept = length filtered.kept }) s in
      log_skips filtered.skips (record t {
        ignored_rg_count = t.ignored_rg_count + filtered.ignored_rg_count;
        excluded = t.excluded ++ filtered.excluded;
      })

  unfoldable pub count_findings : String → ℕ → RunSummary F → RunSummary F
  count_findings kind n s = update_type kind (λ t. record t { findings = n }) s

module _ {F X : Type 0} ⦃fl : Float F⦄ (parse_duration : String → Result Time)
    (is_email : String → Bool) (types : Dict String (ResourceTypeSpec F X)) (settings : Settings)
    (app : AppConfig F X) (clients : Clients F) (mode : RunMode) (now : Time)
    (run_ctx : RunContext) where
  unfoldable pub run_type : String → Action F (List (Row F))
  unfolding evaluate_kept count_filtered count_findings
  run_type kind = do
    spec ← lift (at_key types kind)
    type_cfg ← lift (at_key app.thresholds.resource_types kind)
    modify (for_type kind)
    rules ← lift (at_key app.rules kind)
    listed ← lift (clients.list_resources kind (scope settings))
    resources ← lift (map_result (λ r. spec.enrich r rules) listed)
    modify (count_inventory kind (length resources))
    let filtered =
        filter_resources app.thresholds.tags (app.patterns_for settings.mg_id) spec.active resources
    modify (count_filtered kind filtered)
    rows ←
        evaluate_kept parse_duration is_email settings app clients mode now run_ctx kind spec
          type_cfg filtered.kept
    modify (count_findings kind (length rows))
    pure rows
