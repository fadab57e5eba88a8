-- ===== src/Pipeline/Run.antt =====
-- `_write` and `run`.
use claude_azure_o11y.Prelude.{
  ℕ, ◌+◌, Bool, String, List, [], ◌∷◌, ◌++◌, length, Exception, permission_missing, exception,
  Result, ok, err, ◌==◌, nat_eq, string_eq, if◌then◌else◌,
}
use claude_azure_o11y.Prelude.Text.{◌<>◌}
use claude_azure_o11y.Prelude.Dict
use claude_azure_o11y.Prelude.Dict.{Dict}
use claude_azure_o11y.Float.{Float}
use claude_azure_o11y.Models.{Time}
use claude_azure_o11y.Models.Summary.{RunSummary, new_summary}
use claude_azure_o11y.Config.Settings.{Settings, resource_type_list}
use claude_azure_o11y.Metrics.Derive.{RunMode, ops, finops}
use claude_azure_o11y.Notify.{Row, RunContext, ops_table, finops_table}
use claude_azure_o11y.Pipeline.{AppConfig, ResourceTypeSpec, Clients}
use claude_azure_o11y.Pipeline.Action.{Action, pure, lift, modify, ◌>>=◌, ◌>>◌}
use claude_azure_o11y.Pipeline.TypeRun.{run_type}

abbrev pub mode_name : RunMode → String
mode_name ops = "ops"
mode_name finops = "finops"

abbrev pub table_of : RunMode → String
table_of ops = ops_table
table_of finops = finops_table

abbrev pub write_failed : RunMode → Exception
write_failed mode =
    exception "FindingsWriteFailed" (mode_name mode <> " findings write failed; see logs")

module _ {F : Type 0} where
  -- What `_write` does with the answer of the sink.
  unfoldable pub written : String → ℕ → Result String → Action F (Unit {0})
  written table n (ok destination) s = (
    ok tt,
    record s { destinations = Dict.insert table destination s.destinations; rows_written = n },
  )
  written table n (err (permission_missing need detail)) s =
      (err (permission_missing need detail), s)
  written table n (err (exception name message)) s =
      (ok tt, record s { write_failures = s.write_failures + 1 })

  -- `_write`
  unfoldable pub write_rows : Clients F → String → List (Row F) → Action F (Unit {0})
  unfolding written
  write_rows clients table [] = pure tt
  write_rows clients table (row ∷ rows) =
      written table (length (row ∷ rows)) (clients.write table (row ∷ rows))

  -- `try: rows.extend(await _run_type(…))` with its two handlers.
  unfoldable pub guarded : Action F (List (Row F)) → Action F (List (Row F))
  guarded run s =
      let (result, s') = run s in
      elim result [
        | ok rows ↦ (ok rows, s')
        | err x ↦ elim x [
          | permission_missing need detail ↦ (err (permission_missing need detail), s')
          | exception name message ↦ (ok [], record s' { type_failures = s'.type_failures + 1 })
        ]
      ]

  -- The loop over the kinds.
  unfoldable pub run_kinds :
      (String → Action F (List (Row F))) → List String → Action F (List (Row F))
  unfolding guarded
  run_kinds run [] = pure []
  run_kinds run (kind ∷ kinds) = do
    rows ← guarded (run kind)
    rest ← run_kinds run kinds
    pure (rows ++ rest)

  -- `if summary.write_failures: raise FindingsWriteFailed(…)`
  abbrev pub check_writes : RunMode → Action F (Unit {0})
  check_writes mode s = if s.write_failures == 0 then (ok tt, s) else (err (write_failed mode), s)

  -- What follows the loop: one write, and the failure that the run ends with.
  unfoldable pub finish_run : Clients F → RunMode → List (Row F) → Action F (Unit {0})
  unfolding write_rows
  finish_run clients mode rows = do
    modify (λ s. record s { findings = length rows })
    write_rows clients (table_of mode) rows
    check_writes mode

module _ {F X : Type 0} ⦃fl : Float F⦄ (parse_duration : String → Result Time)
    (is_email : String → Bool) (types : Dict String (ResourceTypeSpec F X)) (settings : Settings)
    (app : AppConfig F X) (clients : Clients F) (mode : RunMode) (now : Time)
    (run_id : String) where
  unfoldable pub run_context : RunContext
  run_context = record {
    run_id = run_id;
    mg_id = settings.mg_id;
    run_at = now;
    tags = app.thresholds.tags;
    assignment_groups = app.assignment_groups;
    currency = settings.pricing_currency;
  }

  -- `run`: whether it returns or raises, and the summary at that point.
  unfoldable pub run : Result (Unit {0}) × RunSummary F
  unfolding run_kinds finish_run run_context
  run =
      (lift (resource_type_list settings (Dict.keys app.thresholds.resource_types)) >>= λ kinds.
      run_kinds (run_type parse_duration is_email types settings app clients mode now run_context)
        kinds
      >>= finish_run clients mode)
        (new_summary settings.mg_id (mode_name mode) now)
