-- ===== src/Pipeline/Outcome.antt =====
-- How `run` ends: what it returns or raises, and what the summary counts then.
use claude_azure_o11y.Prelude.{
  suc, ◌+◌, ◌≡◌, refl, ◌⊎◌, inl, inr, Bool, true, false, String, List, [], ◌∷◌, ◌++◌, length, arith,
  Exception, permission_missing, exception, Result, ok, err, ◌==◌, nat_eq, string_eq, if◌then◌else◌,
}
use claude_azure_o11y.Prelude.Dict
use claude_azure_o11y.Prelude.Dict.{Dict}
use claude_azure_o11y.Float.{Float}
use claude_azure_o11y.Models.{Time}
use claude_azure_o11y.Models.Summary.{RunSummary, new_summary}
use claude_azure_o11y.Config.Settings.{Settings, resource_type_list}
use claude_azure_o11y.Metrics.Derive.{RunMode}
use claude_azure_o11y.Notify.{Row}
use claude_azure_o11y.Pipeline.{AppConfig, ResourceTypeSpec, Clients}
use claude_azure_o11y.Pipeline.Action.{Action, pure, continue, ◌>>=◌}
use claude_azure_o11y.Pipeline.TypeRun.{run_type}
use claude_azure_o11y.Pipeline.Counters.{Keeps, IsQuiet, bind-IsQuiet, pure-IsQuiet}
use claude_azure_o11y.Pipeline.Quiet.{run_type-IsQuiet}
use claude_azure_o11y.Pipeline.Run.{
  mode_name, table_of, write_failed, check_writes, written, write_rows, guarded, run_kinds,
  finish_run, run_context, run,
}

-- No exception but `PermissionMissing`.
abbrev pub IsIsolated : {A : Type 0} → Result A → Type 0
IsIsolated (ok a) = Unit
IsIsolated (err (permission_missing need detail)) = Unit
IsIsolated (err (exception name text)) = ⊥

module _ {F : Type 0} where
  guarded-IsIsolated : (m : Action F (List (Row F))) (s : RunSummary F) → IsIsolated (guarded m s).0
  unfolding guarded
  guarded-IsIsolated m s = split (m s).0
    where
      split :
          (r : Result (List (Row F)))
          → IsIsolated
              (elim r as (λ _. Result (List (Row F)) × RunSummary F) [
                | ok rows ↦ (ok rows, (m s).1)
                | err x ↦ elim x [
                  | permission_missing need detail ↦ (err (permission_missing need detail), (m s).1)
                  | exception name message ↦
                      (ok [], record (m s).1 { type_failures = (m s).1.type_failures + 1 })
                ]
              ]).0
      split (ok rows) = tt
      split (err (permission_missing need detail)) = tt
      split (err (exception name text)) = tt

  guarded-IsQuiet : (m : Action F (List (Row F))) → IsQuiet m → IsQuiet (guarded m)
  unfolding guarded IsQuiet
  guarded-IsQuiet m q s = split (m s).0
    where
      split :
          (r : Result (List (Row F)))
          → Keeps s
              (elim r as (λ _. Result (List (Row F)) × RunSummary F) [
                | ok rows ↦ (ok rows, (m s).1)
                | err x ↦ elim x [
                  | permission_missing need detail ↦ (err (permission_missing need detail), (m s).1)
                  | exception name message ↦
                      (ok [], record (m s).1 { type_failures = (m s).1.type_failures + 1 })
                ]
              ]).1
      split (ok rows) = q s
      split (err (permission_missing need detail)) = q s
      split (err (exception name text)) = q s

  bind-IsIsolated :
      {A B : Type 0} (m : Action F A) (f : A → Action F B)
      → ((s : RunSummary F) → IsIsolated (m s).0)
      → ((a : A) (s : RunSummary F) → IsIsolated (f a s).0)
      → (s : RunSummary F) → IsIsolated ((m >>= f) s).0
  bind-IsIsolated {A} {B} m f p q s = split (m s).0 (p s)
    where
      split : (r : Result A) → IsIsolated r → IsIsolated (continue r f (m s).1).0
      split (ok a) h = q a (m s).1
      split (err (permission_missing need detail)) h = tt
      split (err (exception name text)) h = absurd h

  run_kinds-IsIsolated :
      (each : String → Action F (List (Row F))) (kinds : List String) (s : RunSummary F)
      → IsIsolated (run_kinds each kinds s).0
  unfolding run_kinds
  run_kinds-IsIsolated each [] s = tt
  run_kinds-IsIsolated each (kind ∷ kinds) s =
      bind-IsIsolated (guarded (each kind))
        (λ rows. run_kinds each kinds >>= λ rest. pure (rows ++ rest))
        (guarded-IsIsolated (each kind))
        (λ rows.
          bind-IsIsolated (run_kinds each kinds) (λ rest. pure (rows ++ rest))
            (run_kinds-IsIsolated each kinds) (λ rest s'. tt))
        s

  run_kinds-IsQuiet :
      (each : String → Action F (List (Row F))) (kinds : List String)
      → ((kind : String) → IsQuiet (each kind))
      → IsQuiet (run_kinds each kinds)
  unfolding run_kinds
  run_kinds-IsQuiet each [] q = pure-IsQuiet F []
  run_kinds-IsQuiet each (kind ∷ kinds) q =
      bind-IsQuiet _ _ (guarded-IsQuiet (each kind) (q kind)) (λ rows.
        bind-IsQuiet _ _ (run_kinds-IsQuiet each kinds q) (λ rest. pure-IsQuiet F (rows ++ rest)))

  -- How a run may end behind the choice of its kinds.
  abbrev pub IsFinished : RunMode → Result (Unit {0}) → RunSummary F → Type 0
  IsFinished mode (ok u) s = (s.write_failures ≡ 0) × (s.rows_written ≡ s.findings)
  IsFinished mode (err (permission_missing need detail)) s = Unit
  IsFinished mode (err (exception name text)) s =
      (exception name text ≡ write_failed mode) × (s.write_failures ≡ 1) × (s.rows_written ≡ 0)

  -- The two states of the counts that the check of the write meets.
  abbrev IsCounted : RunSummary F → Type 0
  IsCounted s =
      ((s.write_failures ≡ 0) × (s.rows_written ≡ s.findings))
      ⊎ ((s.write_failures ≡ 1) × (s.rows_written ≡ 0))

  check_writes-IsFinished :
      (mode : RunMode) (s : RunSummary F)
      → IsCounted s
      → IsFinished mode (check_writes mode s).0 (check_writes mode s).1
  check_writes-IsFinished mode s counted = split (s.write_failures == 0) refl counted
    where
      split :
          (b : Bool)
          → (s.write_failures == 0) ≡ b
          → IsCounted s
          → let out : Result (Unit {0}) × RunSummary F =
              if b then (ok tt, s) else (err (write_failed mode), s) in
            IsFinished mode out.0 out.1
      split true e (inl h) = h
      split true e (inr (h, z)) = absurd (ground arith)
      split false e (inl (h, z)) = absurd (ground arith)
      split false e (inr (h, z)) = (refl, h, z)

  finish_run-IsFinished :
      (clients : Clients F) (mode : RunMode) (rows : List (Row F)) (s : RunSummary F)
      → s.rows_written ≡ 0
      → s.write_failures ≡ 0
      → IsFinished mode (finish_run clients mode rows s).0 (finish_run clients mode rows s).1
  unfolding finish_run write_rows
  finish_run-IsFinished clients mode [] s w f =
      check_writes-IsFinished mode (record s { findings = 0 }) (inl (f, w))
  finish_run-IsFinished clients mode (row ∷ rows) s w f =
      split (clients.write (table_of mode) (row ∷ rows))
    where
      before : RunSummary F
      before = record s { findings = suc (length rows) }

      split :
          (answer : Result String)
          → let out =
              (written (table_of mode) (suc (length rows)) answer >>= λ _. check_writes mode)
                before in
            IsFinished mode out.0 out.1
      split (ok destination) =
          check_writes-IsFinished mode
            (written (table_of mode) (suc (length rows)) (ok destination) before).1 (inl (f, refl))
      split (err (permission_missing need detail)) = tt
      split (err (exception name text)) =
          check_writes-IsFinished mode
            (written (table_of mode) (suc (length rows)) (err (exception name text)) before).1
            (inr (omega (arith, f), w))

module _ {F X : Type 0} ⦃fl : Float F⦄ (parse_duration : String → Result Time)
    (is_email : String → Bool) (types : Dict String (ResourceTypeSpec F X)) (settings : Settings)
    (app : AppConfig F X) (clients : Clients F) (mode : RunMode) (now : Time)
    (run_id : String) where
  -- How a whole run may end.
  abbrev pub IsOutcome : Result (Unit {0}) → RunSummary F → Type 0
  IsOutcome r s =
      ((x : Exception) × (resource_type_list settings (Dict.keys app.thresholds.resource_types)
          ≡ err x)
        × (r ≡ err x))
      ⊎ IsFinished mode r s

  -- A run that returns has no write failure and wrote as many rows as it has findings. Otherwise it
  -- raises the error of the `RESOURCE_TYPES` setting, `PermissionMissing`, or, after one failed write
  -- that wrote no row, `FindingsWriteFailed`; no exception of a single resource type ends it.
  pub run-IsOutcome :
      let (r, s) = run parse_duration is_email types settings app clients mode now run_id in
      IsOutcome r s
  unfolding run IsQuiet
  run-IsOutcome = split (resource_type_list settings (Dict.keys app.thresholds.resource_types)) refl
    where
      start : RunSummary F
      start = new_summary settings.mg_id (mode_name mode) now

      each : String → Action F (List (Row F))
      each =
          run_type parse_duration is_email types settings app clients mode now
            (run_context parse_duration is_email types settings app clients mode now run_id)

      finish :
          (r : Result (List (Row F))) (s : RunSummary F)
          → IsIsolated r
          → s.rows_written ≡ 0
          → s.write_failures ≡ 0
          → let out = continue r (finish_run clients mode) s in IsFinished mode out.0 out.1
      finish (ok rows) s i w f = finish_run-IsFinished clients mode rows s w f
      finish (err (permission_missing need detail)) s i w f = tt
      finish (err (exception name text)) s i w f = absurd i

      split :
          (kinds : Result (List String))
          → resource_type_list settings (Dict.keys app.thresholds.resource_types) ≡ kinds
          → let out = continue kinds (λ ks. run_kinds each ks >>= finish_run clients mode) start in
            IsOutcome out.0 out.1
      split (err x) e = inl (x, e, refl)
      split (ok kinds) e =
          let quiet : Keeps start (run_kinds each kinds start).1 =
            run_kinds-IsQuiet each kinds
              (run_type-IsQuiet parse_duration is_email types settings app clients mode now
                (run_context parse_duration is_email types settings app clients mode now run_id))
              start in
          inr (
            finish (run_kinds each kinds start).0 (run_kinds each kinds start).1
              (run_kinds-IsIsolated each kinds start) quiet.0 quiet.1)
