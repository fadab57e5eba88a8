-- ===== src/Metrics/Batch/Chunks.antt =====
-- `chunk` cuts a list into slices and loses nothing.
use Prim.Native.Nat.{min}
use mathlib.Core.List.{flatten}
use claude_azure_o11y.Prelude.{
  ℕ, zero, suc, ◌-◌, ◌≤◌, ◌<◌, ◌≡◌, refl, ◌∙◌, ap, List, [], ◌∷◌, ◌++◌, ok, arith, length, take,
  drop, All, nat_eq,
}
use claude_azure_o11y.Metrics.Batch.{chunk, chunk_from}

module _ {A : Type 0} where
  take-append-drop : (n : ℕ) (xs : List A) → take n xs ++ drop n xs ≡ xs
  take-append-drop zero xs = refl
  take-append-drop (suc n) [] = refl
  take-append-drop (suc n) (x ∷ xs) = ap (◌∷◌ x) (take-append-drop n xs)

  length-take : (n : ℕ) (xs : List A) → length (take n xs) ≡ min n (length xs)
  length-take zero xs = omega arith
  length-take (suc n) [] = omega arith
  length-take (suc n) (x ∷ xs) = omega (arith, length-take n xs)

  length-drop : (n : ℕ) (xs : List A) → length (drop n xs) ≡ length xs - n
  length-drop zero xs = omega arith
  length-drop (suc n) [] = omega arith
  length-drop (suc n) (x ∷ xs) = omega (arith, length-drop n xs)

  abbrev pub IsSlice : ℕ → List A → Type 0
  IsSlice size xs = (0 < length xs) × (length xs ≤ size)

  chunk_from_lem :
      (fuel size : ℕ) (ids : List A)
      → 0 < size
      → length ids ≤ fuel
      → (flatten (chunk_from fuel size ids) ≡ ids) × All (IsSlice size) (chunk_from fuel size ids)
  unfolding chunk_from flatten
  chunk_from_lem fuel size [] p h = (refl, tt)
  chunk_from_lem zero size (x ∷ ids) p h = absurd (omega arith)
  chunk_from_lem (suc fuel) size (x ∷ ids) p h =
      let long = length-take size (x ∷ ids) in
      let short = length-drop size (x ∷ ids) in
      let (joined, slices) = chunk_from_lem fuel size (drop size (x ∷ ids)) p (omega arith) in
      (
        ap (λ ys. take size (x ∷ ids) ++ ys) joined ∙ take-append-drop size (x ∷ ids),
        ((omega arith, omega arith), slices),
      )

  -- For a positive size `chunk` returns slices that are not empty, are no longer than the size, and
  -- join to the given list in its order.
  pub chunk-slices :
      (ids : List A) (size : ℕ)
      → 0 < size
      → (chunks : List (List A)) × (chunk ids size ≡ ok chunks)
        × (flatten chunks ≡ ids)
        × All (IsSlice size) chunks
  unfolding chunk
  chunk-slices ids size p =
      let (joined, all) = chunk_from_lem (length ids) size ids p (omega arith) in
      (chunk_from (length ids) size ids, ground arith, joined, all)
