-- ===== src/Float/Order.antt =====
-- The order of floats away from NaN: what follows from the laws, in the form the proofs use.
use claude_azure_o11y.Prelude.{◌≡◌, true, false, arith, inl, inr, Bool-cases}
use claude_azure_o11y.Float.{Float, IsFloat, max_float}

module _ {F : Type 0} ⦃fl : Float F⦄ (laws : IsFloat fl) where
  open fl use {lt, le}
  open laws use {le_self, le_trans, le_total, lt-not_le, lt_self}

  pub le_of_not_lt : (x y : F) → le x x ≡ true → le y y ≡ true → lt x y ≡ false → le y x ≡ true
  le_of_not_lt x y hx hy h = ground (arith, lt-not_le x y hx hy)

  pub le_of_lt : (x y : F) → lt x y ≡ true → le x y ≡ true
  le_of_lt x y h = ground (
    arith,
    lt_self x y h,
    lt-not_le x y (lt_self x y h).0 (lt_self x y h).1,
    le_total x y (lt_self x y h).0 (lt_self x y h).1,
  )

  -- Both arguments of `max` are below what it is below.
  pub max_float-le :
      (a b s : F)
      → le a a ≡ true
      → le b b ≡ true
      → le (max_float a b) s ≡ true
      → (le a s ≡ true) × (le b s ≡ true)
  max_float-le a b s ha hb h = elim (Bool-cases (lt a b)) [
    | inl t ↦ let k : le b s ≡ true = ground arith in (le_trans a b s (le_of_lt a b t) k, k)
    | inr f ↦
        let k : le a s ≡ true = ground arith in (k, le_trans b a s (le_of_not_lt a b ha hb f) k)
  ]

  pub le-max_float : (a b s : F) → le a s ≡ true → le b s ≡ true → le (max_float a b) s ≡ true
  le-max_float a b s ha hb = ground arith
