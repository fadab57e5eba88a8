-- ===== src/Bootstrap.antt =====
-- src/bootstrap.py: the sink that a run writes to, and what the end of a run logs. The other clients
-- are built without a condition; closing them is left to the exit stack.
use claude_azure_o11y.Prelude.{
  Bool, not, String, List, [], ◌∷◌, Option, Result, ok, err, exception, permission_missing,
  if◌then◌else◌,
}
use claude_azure_o11y.Prelude.Text.{is_text}
use claude_azure_o11y.Storage.{Requirement, describe}

-- The settings that `build_clients` reads to choose a sink.
pub record SinkSettings : Type 0 where
  pub dry_run : Bool
  pub output_dir : String
  pub logs_ingestion_endpoint : String
  pub findings_dcr_immutable_id : String

pub data SinkChoice : Type 0 where
  local_files : (output_dir : String) → SinkChoice
  log_ingestion : (endpoint rule_id : String) → SinkChoice

-- The choice of `build_clients`; a real run needs both settings of the ingestion.
unfoldable pub choose_sink : SinkSettings → Result SinkChoice
choose_sink s =
    if s.dry_run
    then ok (local_files s.output_dir)
    else if not (is_text s.logs_ingestion_endpoint)
    then err (exception "RuntimeError" "LOGS_INGESTION_ENDPOINT is required when DRY_RUN=false")
    else if not (is_text s.findings_dcr_immutable_id)
    then err (exception "RuntimeError" "FINDINGS_DCR_IMMUTABLE_ID is required when DRY_RUN=false")
    else ok (log_ingestion s.logs_ingestion_endpoint s.findings_dcr_immutable_id)

-- The error that `main` logs for the end of a run, which it raises again.
unfoldable pub logged_errors : {A : Type 0} → Option (List Requirement) → Result A → List String
unfolding describe
logged_errors identity (ok summary) = []
logged_errors identity (err (permission_missing need detail)) = describe need detail identity ∷ []
logged_errors identity (err (exception name text)) = []
