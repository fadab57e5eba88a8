-- ===== src/Storage.antt =====
-- src/storage/law.py, src/notify/sinks.py and the description of src/errors.py. The ingestion client,
-- the JSON printer and the parsed identity file are parameters.
pub mod Append
use claude_azure_o11y.Prelude.{
  ℕ, Bool, Option, none, some, String, List, [], ◌∷◌, ◌++◌, map, Result, ok, err, ◌>>=◌, Exception,
  exception, permission_missing, key_error, ◌==◌, string_eq, nat_eq, if◌then◌else◌,
}
use claude_azure_o11y.Prelude.Text.{◌<>◌, strip}
use claude_azure_o11y.Prelude.Dict
use claude_azure_o11y.Prelude.Dict.{Dict}
use claude_azure_o11y.Notify.{Row}

-- The end of an upload: done, an `HttpResponseError` with its status, or another exception.
pub data Upload : Type 0 where
  uploaded : Upload
  refused : (status : ℕ) → (text : String) → Upload
  failed : Exception → Upload

unfoldable after_upload : (rule_id table : String) → Upload → Result String
after_upload rule_id table uploaded = ok ("law:" <> table)
after_upload rule_id table (refused status text) =
    if status == 403
    then err (permission_missing "findings_ingest" ("DCR " <> rule_id))
    else err (exception "HttpResponseError" text)
after_upload rule_id table (failed x) = err x

-- `LogsIngestionSink.write`
unfoldable pub law_write :
    {F : Type 0}
    → (upload : (rule_id stream_name : String) → List (Row F) → Upload) → (rule_id : String)
    → (table : String) → List (Row F)
    → Result String
unfolding after_upload
law_write upload rule_id table rows =
    after_upload rule_id table (upload rule_id ("Custom-" <> table) rows)

-- The files of the output directory, by path: the lines of each.
abbrev pub Files : Type 0
Files = Dict String (List String)

abbrev pub lines_of : String → Files → List String
lines_of path files = elim (Dict.lookup path files) [ none ↦ [] | some lines ↦ lines ]

abbrev pub findings_path : (dir table : String) → String
findings_path dir table = dir <> "/findings/" <> table <> ".jsonl"

-- `LocalFindingsSink.write`: what it returns, and the files as it leaves them.
unfoldable pub local_write :
    {F : Type 0}
    → (dumps : Row F → String) → (dir table : String) → List (Row F)
    → Files
    → String × Files
local_write dumps dir table rows files =
    let path = findings_path dir table in
    (path, Dict.insert path (lines_of path files ++ map dumps rows) files)

-- A row of `requirements`: its columns, all of them texts.
abbrev pub Requirement : Type 0
Requirement = Dict String String

-- `row.get("id") == need`
abbrev is_need : String → Option String → Bool
is_need need none = Bool.false
is_need need (some id) = id == need

abbrev column : Requirement → String → Result String
column row name = elim (Dict.lookup name row) [ none ↦ err (key_error name) | some s ↦ ok s ]

-- `str(self)`
abbrev pub plain_text : (need detail : String) → String
plain_text need detail = strip ("missing permission for need '" <> need <> "' " <> detail)

abbrev role_text : (need detail : String) → Requirement → Result String
role_text need detail row = column row "role" >>= λ role. column row "scope_type" >>= λ scope_type.
    column row "scope" >>= λ scope. ok (
      "missing " <> role <> " on " <> scope_type <> " " <> scope <> " (need: " <> need <> "; "
      <> detail <> ")")

unfoldable or_plain : (need detail : String) → Result String → String
or_plain need detail (ok s) = s
or_plain need detail (err x) = plain_text need detail

unfoldable describe_from : (need detail : String) → List Requirement → String
unfolding or_plain
describe_from need detail [] = plain_text need detail
describe_from need detail (row ∷ rows) =
    let rest = describe_from need detail rows in
    if is_need need (Dict.lookup "id" row)
    then or_plain need detail (role_text need detail row)
    else rest

-- `PermissionMissing.describe`, on the rows of the identity file; `none` is a file that cannot be read.
unfoldable pub describe : (need detail : String) → Option (List Requirement) → String
unfolding describe_from
describe need detail none = plain_text need detail
describe need detail (some rows) = describe_from need detail rows
