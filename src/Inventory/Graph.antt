-- ===== src/Inventory/Graph.antt =====
-- src/inventory/graph.py: `ResourceGraphInventory.list_resources`. The SDK call is a parameter: what
-- it answers to a query, a scope and a skip token.
pub mod Pages
use claude_azure_o11y.Prelude.{
  ℕ, zero, suc, ◌≡◌, Bool, true, false, Option, none, some, String, List, [], ◌∷◌, ◌++◌, map,
  Exception, permission_missing, exception, Result, ok, err, ◌>>=◌, ◌==◌, nat_eq, if◌then◌else◌,
}
use claude_azure_o11y.Prelude.Text.{is_text}
use claude_azure_o11y.Models.{Resource, Scope}

-- `HttpResponseError` with its status, or a page: rows and the token of the next page.
pub data Answer (Row : Type 0) : Type 0 where
  page : List Row → Option String → Answer Row
  http_error : (status : ℕ) → (text : String) → Answer Row

-- A token that is `None` or empty ends the loop.
abbrev pub live_token : Option String → Option String
live_token none = none
live_token (some t) = if is_text t then some t else none

module _ {F Row : Type 0} (ask : Option String → Answer Row) (parse : Row → Result (Resource F))
    (scope_values : String) where
  -- `out.extend(spec.parse(row) for row in rows)`
  unfoldable pub parse_rows : List Row → List (Resource F) → Result (List (Resource F))
  parse_rows [] out = ok out
  parse_rows (row ∷ rows) out = parse row >>= λ r. parse_rows rows (out ++ (r ∷ []))

  abbrev pub Loop : Type 0
  Loop = Option String → List (Resource F) → Option (Result (List (Resource F)))

  -- `if not token: break`
  abbrev pub after_token :
      Loop → List (Resource F) → Option String → Option (Result (List (Resource F)))
  after_token go_on out none = some (ok out)
  after_token go_on out (some t) = go_on (some t) out

  abbrev pub after_rows :
      Loop → Option String → Result (List (Resource F)) → Option (Result (List (Resource F)))
  after_rows go_on next (err x) = some (err x)
  after_rows go_on next (ok out) = after_token go_on out (live_token next)

  -- What one answer leads to; a 403 names the permission that is missing.
  abbrev pub after_answer :
      Loop → List (Resource F) → Answer Row → Option (Result (List (Resource F)))
  after_answer go_on out (http_error status text) = some (
      err (
        if status == 403
        then permission_missing "inventory" scope_values
        else exception "HttpResponseError" text))
  after_answer go_on out (page rows next) = after_rows go_on next (parse_rows rows out)

  -- The loop, with a bound on the pages that are read; none when the bound is met.
  unfoldable pub pages_from : ℕ → Loop
  unfolding parse_rows
  pages_from zero token out = none
  pages_from (suc fuel) token out = after_answer (pages_from fuel) out (ask token)
