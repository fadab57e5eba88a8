-- ===== src/Evaluate/Percentile.antt =====
-- src/evaluate/percentile.py
pub mod Rank
use Prim.Native.Nat.{max}
use claude_azure_o11y.Prelude.{
  ℕ, ◌-◌, ◌≡◌, Option, none, some, List, [], ◌∷◌, Result, ok, err, value_error, exception, ◌>>=◌,
  length, get_elem?, leb, is_empty, if◌then◌else◌,
}
use claude_azure_o11y.Float.{Float}
use claude_azure_o11y.Prelude.Sort.{sort}

module _ {F : Type 0} ⦃fl : Float F⦄ where
  -- `sorted(values)`
  unfoldable pub ordered : List F → List F
  ordered values = sort fl.lt values

-- `max(1, math.ceil(p / 100 * n))`
unfoldable pub rank : {F : Type 0} (fl : Float F) → ℕ → ℕ → ℕ
rank fl p n = max 1 (fl.ceil (fl.mul (fl.div (fl.of_nat p) (fl.of_nat 100)) (fl.of_nat n)))

-- `xs[i]`
abbrev pub item {ℓ} : {A : Type ℓ} → List A → ℕ → Result A
item xs i = elim (get_elem? xs i) [
  | none ↦ err (exception "IndexError" "list index out of range")
  | some x ↦ ok x
]

pub item_lem :
    {A : Type 0} (xs : List A) (i : ℕ) (a : A) → get_elem? xs i ≡ some a → item xs i ≡ ok a
item_lem xs i a e = rw (e, item)

module _ {F : Type 0} ⦃fl : Float F⦄ where
  -- Its callers pass a whole percentage, never below 0.
  unfoldable pub percentile : List F → ℕ → Result (Option F)
  unfolding ordered
  percentile values p =
      if leb p 100
      then (if is_empty values
          then ok none
          else do x ← item (ordered values) (rank fl p (length (ordered values)) - 1); ok (some x))
      else err (value_error "percentile must be within 0..100")
