-- ===== src/Inventory/Graph/Pages.antt =====
-- `list_resources` reads every page once.
use claude_azure_o11y.Prelude.{
  ℕ, zero, suc, ◌≤◌, ◌≡◌, refl, ap, ◌∙◌, Option, none, some, String, List, [], ◌∷◌, Result, ok, err,
  ◌>>=◌, length, arith, nat_eq,
}
use claude_azure_o11y.Models.{Resource}
use claude_azure_o11y.Inventory.Graph.{
  Answer, page, live_token, parse_rows, Loop, after_token, after_rows, after_answer, pages_from,
}

module _ {F Row : Type 0} (ask : Option String → Answer Row) (parse : Row → Result (Resource F))
    (scope_values : String) where
  -- The service answers these pages, from the token on.
  pub data Pages : Option String → List (List Row) → Type 0 where
    final :
        {token next : Option String} {rows : List Row}
        → ask token ≡ page rows next
        → live_token next ≡ none
        → Pages token (rows ∷ [])
    more :
        {token next : Option String} {rows : List Row} {t : String} {rest : List (List Row)}
        → ask token ≡ page rows next
        → live_token next ≡ some t
        → Pages (some t) rest
        → Pages token (rows ∷ rest)

  abbrev pub parse_pages : List (List Row) → List (Resource F) → Result (List (Resource F))
  parse_pages [] out = ok out
  parse_pages (rows ∷ rest) out = parse_rows ask parse scope_values rows out >>= parse_pages rest

  after_rows-final :
      (go_on : Loop ask parse scope_values) (next : Option String)
      (parsed : Result (List (Resource F)))
      → live_token next ≡ none
      → after_rows ask parse scope_values go_on next parsed ≡ some (parsed >>= ok)
  after_rows-final go_on next (ok out) e = ap (after_token ask parse scope_values go_on out) e
  after_rows-final go_on next (err x) e = refl

  after_rows-more :
      (go_on : Loop ask parse scope_values) (next : Option String)
      (parsed : Result (List (Resource F))) (t : String) (rest : List (List Row))
      → live_token next ≡ some t
      → ((out : List (Resource F)) → go_on (some t) out ≡ some (parse_pages rest out))
      → after_rows ask parse scope_values go_on next parsed ≡ some (parsed >>= parse_pages rest)
  after_rows-more go_on next (ok out) t rest e h =
      ap (after_token ask parse scope_values go_on out) e ∙ h out
  after_rows-more go_on next (err x) t rest e h = refl

  -- When the service answers a chain of pages, one round for each page is enough: the loop returns
  -- the resources of all rows of all pages in their order, or raises the first error of a row.
  pub pages_from-Pages :
      (token : Option String) (pages : List (List Row)) (fuel : ℕ) (out : List (Resource F))
      → Pages token pages
      → length pages ≤ fuel
      → pages_from ask parse scope_values fuel token out ≡ some (parse_pages pages out)
  unfolding pages_from
  pages_from-Pages token [] fuel out p h = elim p [ ]
  pages_from-Pages token (rows ∷ rest) zero out p h = absurd (omega arith)
  pages_from-Pages token (rows ∷ []) (suc fuel) out (final a e) h =
      ap (after_answer ask parse scope_values (pages_from ask parse scope_values fuel) out) a
      ∙ after_rows-final (pages_from ask parse scope_values fuel) _
          (parse_rows ask parse scope_values rows out) e
  pages_from-Pages token (rows ∷ rest) (suc fuel) out (more {t} a e p) h =
      ap (after_answer ask parse scope_values (pages_from ask parse scope_values fuel) out) a
      ∙ after_rows-more (pages_from ask parse scope_values fuel) _
          (parse_rows ask parse scope_values rows out) t rest e
          (λ out'. pages_from-Pages (some t) rest fuel out' p (omega arith))
