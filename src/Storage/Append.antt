-- ===== src/Storage/Append.antt =====
-- The dry-run sink of src/notify/sinks.py keeps what was written before.
use text.Mathlib.TextLemmas.{append_cancel_left, append_cancel_right}
use claude_azure_o11y.Prelude.{
  ◌≡◌, refl, ◌∙◌, sym, ap, Bool, true, false, Option, none, some, String, List, [], ◌∷◌, ◌++◌, map,
  ◌==◌, string_eq, arith, if◌then◌else◌,
}
use claude_azure_o11y.Prelude.Text.{◌<>◌}
use claude_azure_o11y.Prelude.Dict
use claude_azure_o11y.Prelude.Dict.{lookup-insert}
use claude_azure_o11y.Notify.{Row}
use claude_azure_o11y.Storage.{Files, lines_of, findings_path, local_write}

path_inj : (dir t u : String) → findings_path dir t ≡ findings_path dir u → t ≡ u
path_inj dir t u h =
    append_cancel_right t u ".jsonl" (
      append_cancel_left "/findings/" (t <> ".jsonl") (u <> ".jsonl")
        (append_cancel_left dir _ _ h))

path_same : (dir t u : String) → (findings_path dir t == findings_path dir u) ≡ (t == u)
path_same dir t u = ground (
  arith,
  string_eq.same_iff t u,
  string_eq.same_iff (findings_path dir t) (findings_path dir u),
  path_inj dir t u,
)

append_none : (xs : List String) → xs ++ [] ≡ xs
append_none [] = refl
append_none (x ∷ xs) = ap (λ ys. x ∷ ys) (append_none xs)

abbrev lines_in : Option (List String) → List String
lines_in none = []
lines_in (some lines) = lines

-- A write appends the rows as lines, in order, to the file of its table, and leaves the files of the
-- other tables as they are.
pub local_write-lines_of :
    {F : Type 0} (dumps : Row F → String) (dir table other : String) (rows : List (Row F))
    (files : Files)
    → lines_of (findings_path dir other) (local_write dumps dir table rows files).1
      ≡ lines_of (findings_path dir other) files ++ (if table == other then map dumps rows else [])
unfolding local_write
local_write-lines_of {F} dumps dir table other rows files =
    ap lines_in (
      lookup-insert (findings_path dir table) (findings_path dir other)
        (lines_of (findings_path dir table) files ++ map dumps rows) files)
    ∙ (ap
          (λ b. lines_in (
            if b
            then some (lines_of (findings_path dir table) files ++ map dumps rows)
            else Dict.lookup (findings_path dir other) files))
          (path_same dir table other)
        ∙ split (table == other) (string_eq.same_iff table other).0)
  where
    split :
        (b : Bool)
        → (b ≡ true → table ≡ other)
        → lines_in (
            if b
            then some (lines_of (findings_path dir table) files ++ map dumps rows)
            else Dict.lookup (findings_path dir other) files)
          ≡ lines_of (findings_path dir other) files ++ (if b then map dumps rows else [])
    split true same = ap (λ t. lines_of (findings_path dir t) files ++ map dumps rows) (same refl)
    split false same = sym (append_none (lines_of (findings_path dir other) files))
