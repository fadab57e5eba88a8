-- ===== src/Prelude/Sort.antt =====
-- Python's `sorted`, and what every such sort keeps.
use Prim.Native.Nat.{◌+◌}
use mathlib.Core.Path.{◌≡◌, refl, sym, subst}
use mathlib.Core.Bool.{Bool, true, false}
use mathlib.Core.Logic.{inl, inr}
use mathlib.Core.List.{List, [], ◌∷◌}
use mathlib.Core.Option.{none, some}
use native.Mathlib.Omega.{arith}
use claude_azure_o11y.Prelude.Tests.{if◌then◌else◌, Bool-cases}
use claude_azure_o11y.Prelude.Lists.{length, count, All, Among, All-Among, All-self, filter, last}

-- `sorted` by a test `less`. It is stable: an element passes only those that are less than it, so
-- equal elements keep their order.
module _ {A : Type 0} (less : A → A → Bool) where
  unfoldable pub insert_sorted : A → List A → List A
  insert_sorted x [] = x ∷ []
  insert_sorted x (y ∷ ys) = if less y x then y ∷ insert_sorted x ys else x ∷ y ∷ ys

  unfoldable pub sort : List A → List A
  unfolding insert_sorted
  sort [] = []
  sort (x ∷ xs) = insert_sorted x (sort xs)

Among-swap :
    {A : Type 0} (a x y : A) (ys zs : List A)
    → (Among a (x ∷ ys) → Among a zs)
    → Among a (x ∷ y ∷ ys)
    → Among a (y ∷ zs)
Among-swap a x y ys zs f (inl e) = inr (f (inl e))
Among-swap a x y ys zs f (inr (inl e)) = inl e
Among-swap a x y ys zs f (inr (inr m)) = inr (f (inr m))

module _ {A : Type 0} (less : A → A → Bool) where
  count-insert_sorted :
      (q : A → Bool) (x : A) (xs : List A)
      → count q (insert_sorted less x xs) ≡ (if q x then 1 else 0) + count q xs
  unfolding insert_sorted
  count-insert_sorted q x [] = refl
  count-insert_sorted q x (y ∷ ys) = ground (arith, count-insert_sorted q x ys)

  -- Sorting keeps the number of the elements that pass a test.
  pub count-sort : (q : A → Bool) (xs : List A) → count q (sort less xs) ≡ count q xs
  unfolding sort
  count-sort q [] = refl
  count-sort q (x ∷ xs) = omega (arith, count-insert_sorted q x (sort less xs), count-sort q xs)

  length-insert_sorted : (x : A) (xs : List A) → length (insert_sorted less x xs) ≡ 1 + length xs
  unfolding insert_sorted
  length-insert_sorted x [] = refl
  length-insert_sorted x (y ∷ ys) = ground (arith, length-insert_sorted x ys)

  pub length-sort : (xs : List A) → length (sort less xs) ≡ length xs
  unfolding sort
  length-sort [] = refl
  length-sort (x ∷ xs) = omega (arith, length-insert_sorted x (sort less xs), length-sort xs)

  pub All-insert_sorted :
      (P : A → Type 0) (x : A) (xs : List A) → P x → All P xs → All P (insert_sorted less x xs)
  unfolding insert_sorted
  All-insert_sorted P x [] p ps = (p, ps)
  All-insert_sorted P x (y ∷ ys) p (q, qs) = ground (arith, All-insert_sorted P x ys p qs)

  pub All-sort : (P : A → Type 0) (xs : List A) → All P xs → All P (sort less xs)
  unfolding sort
  All-sort P [] ps = ps
  All-sort P (x ∷ xs) (p, ps) = All-insert_sorted P x (sort less xs) p (All-sort P xs ps)

  -- The elements of a list, as a property of each that sorting keeps.
  pub Among-sort : (a : A) (xs : List A) → Among a (sort less xs) → Among a xs
  Among-sort a xs m =
      All-Among (λ b. Among b xs) (sort less xs) a (All-sort (λ b. Among b xs) xs (All-self xs)) m

  Among-insert_sorted :
      (a x : A) (xs : List A) → Among a (x ∷ xs) → Among a (insert_sorted less x xs)
  unfolding insert_sorted
  Among-insert_sorted a x [] m = m
  Among-insert_sorted a x (y ∷ ys) m = elim (Bool-cases (less y x)) [
    | inl t ↦ rw t (Among-swap a x y ys (insert_sorted less x ys) (Among-insert_sorted a x ys) m)
    | inr f ↦ rw f m
  ]

  pub Among-sort_of : (a : A) (xs : List A) → Among a xs → Among a (sort less xs)
  unfolding sort
  Among-sort_of a [] m = m
  Among-sort_of a (x ∷ xs) (inl e) = Among-insert_sorted a x (sort less xs) (inl e)
  Among-sort_of a (x ∷ xs) (inr m) =
      Among-insert_sorted a x (sort less xs) (inr (Among-sort_of a xs m))

-- A sort by a test that agrees with a relation puts the list in the order of the relation.
module _ {A : Type 0} (R : A → A → Type 0) where
  abbrev pub Ordered : List A → Type 0
  Ordered [] = Unit
  Ordered (x ∷ xs) = All (R x) xs × Ordered xs

module _ {A : Type 0} (R : A → A → Type 0) (trans : (a b c : A) → R a b → R b c → R a c) where
  All-trans : (x y : A) (xs : List A) → R x y → All (R y) xs → All (R x) xs
  All-trans x y [] h a = tt
  All-trans x y (z ∷ zs) h (a, r) = (trans x y z h a, All-trans x y zs h r)

  insert_sorted-Ordered :
      (less : A → A → Bool)
      → ((a b : A) → less a b ≡ true → R a b)
      → ((a b : A) → less b a ≡ false → R a b)
      → (x : A) (xs : List A) → Ordered R xs
      → Ordered R (insert_sorted less x xs)
  unfolding insert_sorted
  insert_sorted-Ordered less up down x [] o = (tt, tt)
  insert_sorted-Ordered less up down x (y ∷ ys) (a, o) = elim (Bool-cases (less y x)) [
    | inl t ↦
        rw t (
          All-insert_sorted less (R y) x ys (up y x t) a,
          insert_sorted-Ordered less up down x ys o,
        )
    | inr f ↦ let h : R x y = down x y f in rw f ((h, All-trans x y ys h a), (a, o))
  ]

  pub sort-Ordered :
      (less : A → A → Bool)
      → ((a b : A) → less a b ≡ true → R a b)
      → ((a b : A) → less b a ≡ false → R a b)
      → (xs : List A) → Ordered R (sort less xs)
  unfolding sort
  sort-Ordered less up down [] = tt
  sort-Ordered less up down (x ∷ xs) =
      insert_sorted-Ordered less up down x (sort less xs) (sort-Ordered less up down xs)

module _ {A : Type 0} (R : A → A → Type 0) where
  All-filter : (P : A → Type 0) (p : A → Bool) (xs : List A) → All P xs → All P (filter p xs)
  All-filter P p [] h = tt
  All-filter P p (x ∷ xs) (h, hs) = elim (Bool-cases (p x)) [
    | inl t ↦ rw t (h, All-filter P p xs hs)
    | inr f ↦ rw f (All-filter P p xs hs)
  ]

  pub Ordered-filter : (p : A → Bool) (xs : List A) → Ordered R xs → Ordered R (filter p xs)
  Ordered-filter p [] o = tt
  Ordered-filter p (x ∷ xs) (a, o) = elim (Bool-cases (p x)) [
    | inl t ↦ rw t (All-filter (R x) p xs a, Ordered-filter p xs o)
    | inr f ↦ rw f (Ordered-filter p xs o)
  ]

  -- In an ordered list every element is before the last one, or is it.
  pub last-Ordered :
      ((a : A) → R a a)
      → (xs : List A) (a : A) → last xs ≡ some a
      → Ordered R xs
      → Among a xs × All (λ b. R b a) xs
  last-Ordered same [] a e o = absurd (cc)
  last-Ordered same (x ∷ []) a e o =
      let h : x ≡ a = ground arith in (inl (sym h), (subst (R x) h (same x), tt))
  last-Ordered same (x ∷ y ∷ ys) a e (r, o) =
      let (m, all) = last-Ordered same (y ∷ ys) a e o in
      (inr m, (All-Among (R x) (y ∷ ys) a r m, all))

pub last-cons-ne-none : {A : Type 0} (x : A) (xs : List A) → last (x ∷ xs) ≡ none → ⊥
last-cons-ne-none x [] e = cc
last-cons-ne-none x (y ∷ ys) e = last-cons-ne-none y ys e

pub last-eq-none : {A : Type 0} (xs : List A) → last xs ≡ none → xs ≡ []
last-eq-none [] e = refl
last-eq-none (x ∷ xs) e = absurd (last-cons-ne-none x xs e)
