-- ===== src/Pipeline/Counters.antt =====
-- The part of the summary that one resource type does not touch: the counts of the write.
use claude_azure_o11y.Prelude.{
  ◌+◌, ◌≡◌, refl, ◌∙◌, Bool, true, false, Option, none, some, Result, ok, err, String, List, [],
  ◌∷◌, string_eq, if◌then◌else◌,
}
use claude_azure_o11y.Prelude.Dict
use claude_azure_o11y.Prelude.Dict.{Dict}
use claude_azure_o11y.Models.{Resource, Series, Skip}
use claude_azure_o11y.Models.Summary.{RunSummary, TypeSummary, count_skip, for_type, update_type}
use claude_azure_o11y.Pipeline.Action.{Action, pure, lift, continue, ◌>>=◌, modify, collect}
use claude_azure_o11y.Pipeline.Fetch.{ChunkResult, fetched, failed}
use claude_azure_o11y.Pipeline.TypeRun.{
  log_skips, sizeable, count_failed, merge_chunks, chunk_failure,
}

module _ {F : Type 0} where
  -- The two summaries count the same writes.
  abbrev pub Keeps : RunSummary F → RunSummary F → Type 0
  Keeps s s' = (s'.rows_written ≡ s.rows_written) × (s'.write_failures ≡ s.write_failures)

  pub Keeps-trans : (s s' s'' : RunSummary F) → Keeps s s' → Keeps s' s'' → Keeps s s''
  Keeps-trans s s' s'' (a, b) (c, d) = (c ∙ a, d ∙ b)

  -- An action that writes nothing.
  unfoldable pub IsQuiet : {A : Type 0} → Action F A → Type 0
  IsQuiet m = (s : RunSummary F) → Keeps s (m s).1

module _ {A : Type 0} (F : Type 0) where
  pub pure-IsQuiet : (a : A) → IsQuiet {F = F} (pure a)
  unfolding IsQuiet
  pure-IsQuiet a s = (refl, refl)

  pub lift-IsQuiet : (r : Result A) → IsQuiet {F = F} (lift r)
  unfolding IsQuiet
  lift-IsQuiet r s = (refl, refl)

module _ {F A : Type 0} where
  pub if-IsQuiet :
      (b : Bool) (m n : Action F A) → IsQuiet m → IsQuiet n → IsQuiet (if b then m else n)
  if-IsQuiet true m n p q = p
  if-IsQuiet false m n p q = q

module _ {F : Type 0} where
  pub modify-IsQuiet :
      (f : RunSummary F → RunSummary F) → ((s : RunSummary F) → Keeps s (f s)) → IsQuiet (modify f)
  unfolding IsQuiet
  modify-IsQuiet f h = h

module _ {F A B : Type 0} where
  pub bind-IsQuiet :
      (m : Action F A) (f : A → Action F B)
      → IsQuiet m
      → ((a : A) → IsQuiet (f a))
      → IsQuiet (m >>= f)
  unfolding IsQuiet
  bind-IsQuiet m f p q s = split (m s).0 (m s).1 (p s)
    where
      split : (r : Result A) (s' : RunSummary F) → Keeps s s' → Keeps s (continue r f s').1
      split (ok a) s' k = Keeps-trans s s' (f a s').1 k (q a s')
      split (err x) s' k = k

module _ {F A B : Type 0} where
  pub collect-IsQuiet :
      (f : A → Action F (List B)) (xs : List A) → ((a : A) → IsQuiet (f a)) → IsQuiet (collect f xs)
  unfolding collect
  collect-IsQuiet f [] q = pure-IsQuiet F []
  collect-IsQuiet f (x ∷ xs) q =
      bind-IsQuiet (f x) _ (q x)
        (λ ys. bind-IsQuiet (collect f xs) _ (collect-IsQuiet f xs q) (λ zs. pure-IsQuiet F _))

module _ {F : Type 0} where
  pub count_skip-Keeps : (reason : String) (s : RunSummary F) → Keeps s (count_skip reason s)
  unfolding count_skip
  count_skip-Keeps reason s = (refl, refl)

  pub for_type-Keeps : (kind : String) (s : RunSummary F) → Keeps s (for_type kind s)
  unfolding for_type
  for_type-Keeps kind s = (refl, refl)

  pub update_type-Keeps :
      (kind : String) (f : TypeSummary → TypeSummary) (s : RunSummary F)
      → Keeps s (update_type kind f s)
  unfolding update_type
  update_type-Keeps kind f s = split (Dict.lookup kind s.by_type)
    where
      split :
          (o : Option TypeSummary)
          → Keeps s (elim o [
            | none ↦ s
            | some t ↦ record s { by_type = Dict.insert kind (f t) s.by_type }
          ])
      split none = (refl, refl)
      split (some t) = (refl, refl)

  pub log_skips-Keeps : (skips : List Skip) (s : RunSummary F) → Keeps s (log_skips skips s)
  unfolding log_skips
  log_skips-Keeps [] s = (refl, refl)
  log_skips-Keeps (skip ∷ skips) s =
      Keeps-trans s (count_skip skip.reason s) (log_skips skips (count_skip skip.reason s))
        (count_skip-Keeps skip.reason s) (log_skips-Keeps skips (count_skip skip.reason s))

  pub sizeable-Keeps :
      (finops_skip : Resource F → Option Skip) (rs : List (Resource F)) (s : RunSummary F)
      → Keeps s (sizeable finops_skip rs s).1
  unfolding sizeable
  sizeable-Keeps finops_skip [] s = (refl, refl)
  sizeable-Keeps finops_skip (r ∷ rest) s = split (finops_skip r) (sizeable-Keeps finops_skip rest)
    where
      split :
          (o : Option Skip)
          → ((s' : RunSummary F) → Keeps s' (sizeable finops_skip rest s').1)
          → Keeps s
              (elim o as (λ _. List (Resource F) × RunSummary F) [
                | none ↦ let (kept, s') = sizeable finops_skip rest s in (r ∷ kept, s')
                | some skip ↦ sizeable finops_skip rest (count_skip skip.reason s)
              ]).1
      split none h = h s
      split (some skip) h =
          Keeps-trans s (count_skip skip.reason s)
            (sizeable finops_skip rest (count_skip skip.reason s)).1
            (count_skip-Keeps skip.reason s) (h (count_skip skip.reason s))

  count_failed-Keeps :
      (kind error : String) (rs : List (Resource F)) (s : RunSummary F)
      → Keeps s (count_failed kind error rs s)
  unfolding count_failed
  count_failed-Keeps kind error [] s = (refl, refl)
  count_failed-Keeps kind error (r ∷ rest) s =
      Keeps-trans s (count_skip "chunk_failed" s)
        (count_failed kind error rest (count_skip "chunk_failed" s))
        (count_skip-Keeps "chunk_failed" s)
        (count_failed-Keeps kind error rest (count_skip "chunk_failed" s))

  pub merge_chunks-Keeps :
      (kind : String) (chunks : List (ChunkResult F)) (raw : Dict String (Series F))
      (s : RunSummary F)
      → Keeps s (merge_chunks kind chunks raw s).1
  unfolding merge_chunks
  merge_chunks-Keeps kind [] raw s = (refl, refl)
  merge_chunks-Keeps kind (fetched rs series ∷ rest) raw s =
      merge_chunks-Keeps kind rest (Dict.update raw series) s
  merge_chunks-Keeps kind (failed rs error ∷ rest) raw s =
      let here = chunk_failure kind s in
      let counted = count_failed kind error rs here in
      let out = (merge_chunks kind rest raw counted).1 in
      Keeps-trans s here out
        (update_type-Keeps kind (λ t. record t { chunk_failures = t.chunk_failures + 1 }) s)
        (Keeps-trans here counted out (count_failed-Keeps kind error rs here)
          (merge_chunks-Keeps kind rest raw counted))
