-- ===== src/Float.antt =====
-- Python's `float`, as a parameter: the type, the operations that the program applies to it, and
-- the conversions between floats, integers and text. `IsFloat` states what IEEE arithmetic and
-- Python document of them, as far as a theorem needs it; `Float/Fixed.antt` is an instance.
pub mod Fixed
pub mod Order
use claude_azure_o11y.Prelude.{
  ℕ, ◌≤◌, ◌<◌, ◌≡◌, Bool, true, not, Option, String, List, leb, ltb, if◌then◌else◌, ◌⊎◌,
}

-- The digits beyond ASCII, which Unicode has: `s.isdigit()` of a text that is not made of ASCII digits,
-- and `int(s)` of it, with `none` for its `ValueError`.
pub record Digits : Type 0 where
  pub is_digit : String → Bool
  pub int : String → Option ℕ

pub record Float (F : Type 0) : Type 0 where
  -- `<`, `<=`, `==`; each is false where a side is NaN
  pub lt : F → F → Bool
  pub le : F → F → Bool
  pub eq : F → F → Bool
  pub add : F → F → F
  pub sub : F → F → F
  pub mul : F → F → F
  -- `/`; each call of the program has ruled a zero divisor out
  pub div : F → F → F
  pub of_nat : ℕ → F
  -- `sum(xs)`: the way Python adds floats up depends on its version
  pub sum_floats : List F → F
  -- `round(x, digits)`
  pub round : F → ℕ → F
  -- neither NaN nor an infinity
  pub is_finite : F → Bool
  -- `math.ceil` of a finite number, read as 0 below 0: each call stands under a `max` with a number that
  -- is not negative
  pub ceil : F → ℕ
  -- `float(s)`, `none` where it raises `ValueError`
  pub parse_float : String → Option F
  -- `int(x)`, and `int(s)` with `none` for its `ValueError`; no count of the program is negative
  pub to_int : F → ℕ
  pub parse_int : String → Option ℕ
  pub digits : Digits
  -- `f"{x:g}"`, `f"{x:.0%}"`, `f"{x:.<d>f}"`, `str(x)`
  pub show_g : F → String
  pub show_percent : F → String
  pub show_fixed : ℕ → F → String
  pub show_float : F → String
  -- `repr(s)` of a text
  pub repr : String → String

module _ {F : Type 0} ⦃fl : Float F⦄ where
  open fl use {lt, le}

  -- Python's `max(a, b)`: the first argument unless the second is larger.
  abbrev pub max_float : F → F → F
  max_float a b = if lt a b then b else a

  -- `a > b` and `a >= b`.
  abbrev pub gt : F → F → Bool
  gt a b = lt b a

  abbrev pub ge : F → F → Bool
  ge a b = le b a

-- Any number is `<=` itself, and NaN is not.
pub record IsFloat {F : Type 0} (fl : Float F) : Type 0 where
  pub le_self : (x y : F) → fl.le x y ≡ true → (fl.le x x ≡ true) × (fl.le y y ≡ true)
  pub le_trans : (x y z : F) → fl.le x y ≡ true → fl.le y z ≡ true → fl.le x z ≡ true
  pub le_total :
      (x y : F) → fl.le x x ≡ true → fl.le y y ≡ true → (fl.le x y ≡ true) ⊎ (fl.le y x ≡ true)
  pub lt-not_le : (x y : F) → fl.le x x ≡ true → fl.le y y ≡ true → fl.lt x y ≡ not (fl.le y x)
  pub lt_self : (x y : F) → fl.lt x y ≡ true → (fl.le x x ≡ true) × (fl.le y y ≡ true)
  -- integers convert exactly
  pub le-of_nat : (a b : ℕ) → fl.le (fl.of_nat a) (fl.of_nat b) ≡ leb a b
  pub lt-of_nat : (a b : ℕ) → fl.lt (fl.of_nat a) (fl.of_nat b) ≡ ltb a b
  -- a quotient of integers that is at most 1, and the product of such a factor and an integer
  pub div-le_one :
      (a b : ℕ) → a ≤ b → 0 < b → fl.le (fl.div (fl.of_nat a) (fl.of_nat b)) (fl.of_nat 1) ≡ true
  pub mul-le :
      (x : F) (n : ℕ)
      → fl.le x (fl.of_nat 1) ≡ true
      → fl.le (fl.mul x (fl.of_nat n)) (fl.of_nat n) ≡ true
  pub is_finite-of_le :
      (x : F) (m n : ℕ)
      → fl.le (fl.of_nat m) x ≡ true
      → fl.le x (fl.of_nat n) ≡ true
      → fl.is_finite x ≡ true
  pub ceil-le : (x : F) (n : ℕ) → fl.le x (fl.of_nat n) ≡ true → fl.ceil x ≤ n
  -- the ceiling of what an integer bounds is not below it
  pub le-ceil :
      (x : F) (n : ℕ) → fl.le x (fl.of_nat n) ≡ true → fl.le x (fl.of_nat (fl.ceil x)) ≡ true
