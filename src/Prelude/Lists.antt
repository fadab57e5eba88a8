-- ===== src/Prelude/Lists.antt =====
-- Lists by native numbers and Boolean tests, and the predicates that the statements use.
use Prim.Native.Nat.{ℕ, zero, suc, ◌+◌, ◌<◌}
use mathlib.Core.Path.{◌≡◌, refl, ap, ◌∙◌, sym, subst}
use mathlib.Core.Bool.{Bool, true, false, ◌&&◌, ◌||◌}
use mathlib.Core.List.{List, [], ◌∷◌, ◌++◌}
use mathlib.Core.Logic.{◌⊎◌, inl, inr}
use mathlib.Core.Option.{Option, none, some}
use native.Mathlib.Omega.{arith}
use claude_azure_o11y.Prelude.Tests.{if◌then◌else◌, Bool-cases}

module _ {ℓ} {A : Type ℓ} where
  abbrev pub length : List A → ℕ
  length [] = 0
  length (x ∷ xs) = suc (length xs)

  abbrev pub get_elem? : List A → ℕ → Option A
  get_elem? [] i = none
  get_elem? (x ∷ xs) zero = some x
  get_elem? (x ∷ xs) (suc i) = get_elem? xs i

  abbrev pub take : ℕ → List A → List A
  take zero xs = []
  take (suc n) [] = []
  take (suc n) (x ∷ xs) = x ∷ take n xs

  abbrev pub drop : ℕ → List A → List A
  drop zero xs = xs
  drop (suc n) [] = []
  drop (suc n) (x ∷ xs) = drop n xs

  -- `[x for x in xs if p(x)]`
  abbrev pub filter : (A → Bool) → List A → List A
  filter p [] = []
  filter p (x ∷ xs) = let rest = filter p xs in if p x then x ∷ rest else rest

  abbrev pub any : (A → Bool) → List A → Bool
  any p [] = false
  any p (x ∷ xs) = p x || any p xs

  abbrev pub all : (A → Bool) → List A → Bool
  all p [] = true
  all p (x ∷ xs) = p x && all p xs

  -- `next((x for x in xs if p(x)), None)`
  abbrev pub find : (A → Bool) → List A → Option A
  find p [] = none
  find p (x ∷ xs) = if p x then some x else find p xs

  -- `xs[-1] if xs else None`
  abbrev pub last : List A → Option A
  last [] = none
  last (x ∷ xs) = elim xs [ [] ↦ some x | _ ∷ _ ↦ last xs ]

  abbrev pub is_empty : List A → Bool
  is_empty [] = true
  is_empty (x ∷ xs) = false

  -- How many elements pass a test.
  abbrev pub count : (A → Bool) → List A → ℕ
  count p [] = 0
  count p (x ∷ xs) = (if p x then 1 else 0) + count p xs

  abbrev pub All {κ} : (A → Type κ) → List A → Type κ
  All P [] = Unit
  All P (x ∷ xs) = P x × All P xs

  pub length-append : (xs ys : List A) → length (xs ++ ys) ≡ length xs + length ys
  length-append [] ys = omega arith
  length-append (x ∷ xs) ys = omega (arith, length-append xs ys)

  pub All-append {κ} : (P : A → Type κ) (xs ys : List A) → All P xs → All P ys → All P (xs ++ ys)
  All-append P [] ys _ q = q
  All-append P (x ∷ xs) ys (p, ps) q = (p, All-append P xs ys ps q)

module _ {A : Type 0} where
  -- Membership, with the position kept.
  abbrev pub Among : A → List A → Type 0
  Among a [] = ⊥
  Among a (x ∷ xs) = (a ≡ x) ⊎ Among a xs

  pub Among-filter :
      (p : A → Bool) (xs : List A) {a : A} → Among a (filter p xs) → Among a xs × (p a ≡ true)
  Among-filter p [] m = elim m [ ]
  Among-filter p (x ∷ xs) {a} m = split (p x) refl m (Among-filter p xs {a = a})
    where
      split :
          (b : Bool)
          → p x ≡ b
          → Among a (if b then x ∷ filter p xs else filter p xs)
          → (Among a (filter p xs) → Among a xs × (p a ≡ true))
          → ((a ≡ x) ⊎ Among a xs) × (p a ≡ true)
      split true e (inl h) ih = (inl h, ap p h ∙ e)
      split true e (inr h) ih = (inr (ih h).0, (ih h).1)
      split false e h ih = (inr (ih h).0, (ih h).1)

  pub Among-append_right : (xs ys : List A) (a : A) → Among a ys → Among a (xs ++ ys)
  Among-append_right [] ys a m = m
  Among-append_right (x ∷ xs) ys a m = inr (Among-append_right xs ys a m)

  pub Among-append_left : (xs ys : List A) (a : A) → Among a xs → Among a (xs ++ ys)
  Among-append_left [] ys a m = elim m [ ]
  Among-append_left (x ∷ xs) ys a (inl e) = inl e
  Among-append_left (x ∷ xs) ys a (inr m) = inr (Among-append_left xs ys a m)

  pub All-Among : (P : A → Type 0) (xs : List A) (a : A) → All P xs → Among a xs → P a
  All-Among P [] a h m = elim m [ ]
  All-Among P (x ∷ xs) a h (inl e) = subst P (sym e) h.0
  All-Among P (x ∷ xs) a h (inr m) = All-Among P xs a h.1 m

  pub find-eq-some :
      (p : A → Bool) (xs : List A) (a : A) → find p xs ≡ some a → Among a xs × (p a ≡ true)
  find-eq-some p [] a e = absurd (cc)
  find-eq-some p (x ∷ xs) a e = elim (Bool-cases (p x)) [
    | inl t ↦ let q : a ≡ x = ground arith in (inl q, ap p q ∙ t)
    | inr f ↦ let h = find-eq-some p xs a (ground arith) in (inr h.0, h.1)
  ]

  -- Nothing is found exactly where no element passes.
  pub find-eq-none :
      (p : A → Bool) (xs : List A) (a : A) → find p xs ≡ none → Among a xs → p a ≡ false
  find-eq-none p [] a e m = elim m [ ]
  find-eq-none p (x ∷ xs) a e (inl h) = rw h (ground arith)
  find-eq-none p (x ∷ xs) a e (inr h) = find-eq-none p xs a (ground arith) h

  pub All-weaken : (P Q : A → Type 0) (xs : List A) → ((a : A) → P a → Q a) → All P xs → All Q xs
  All-weaken P Q [] f ps = tt
  All-weaken P Q (x ∷ xs) f (p, ps) = (f x p, All-weaken P Q xs f ps)

  pub All-self : (xs : List A) → All (λ b. Among b xs) xs
  All-self [] = tt
  All-self (x ∷ xs) = (
    inl refl,
    All-weaken (λ b. Among b xs) (λ b. Among b (x ∷ xs)) xs (λ b m. inr m) (All-self xs),
  )

  -- An index below the length has an element, and it is among the list's.
  pub get_elem?-lt :
      (xs : List A) (i : ℕ) → i < length xs → (a : A) × (get_elem? xs i ≡ some a) × Among a xs
  get_elem?-lt [] i h = elim h [ ]
  get_elem?-lt (x ∷ xs) zero h = (x, refl, inl refl)
  get_elem?-lt (x ∷ xs) (suc i) h = let (a, e, m) = get_elem?-lt xs i (omega arith) in (a, e, inr m)

  pub get_elem?-Among : (xs : List A) (i : ℕ) (a : A) → get_elem? xs i ≡ some a → Among a xs
  get_elem?-Among [] i a e = absurd (cc)
  get_elem?-Among (x ∷ xs) zero a e = inl (ground arith)
  get_elem?-Among (x ∷ xs) (suc i) a e = inr (get_elem?-Among xs i a e)

  pub Among-filter_of :
      (p : A → Bool) (xs : List A) (a : A) → Among a xs → p a ≡ true → Among a (filter p xs)
  Among-filter_of p [] a m t = elim m [ ]
  Among-filter_of p (x ∷ xs) a (inl e) t = rw (ap p (sym e) ∙ t) (inl e)
  Among-filter_of p (x ∷ xs) a (inr m) t = elim (Bool-cases (p x)) [
    | inl h ↦ rw h (inr (Among-filter_of p xs a m t))
    | inr h ↦ rw h (Among-filter_of p xs a m t)
  ]
