-- ===== src/Float/Fixed.antt =====
-- Numbers with four decimals, counted in ten-thousandths: an instance of the float operations at
-- which the laws hold and at which the tests run. It has no NaN and no number below 0.
use Prim.Native.Char.{code}
use claude_azure_o11y.Prelude.{
  List, [], ◌∷◌, ℕ, ◌+◌, ◌-◌, ◌*◌, ◌/◌, ◌^◌, ◌≤◌, ◌<◌, ◌≡◌, refl, true, false, ◌&&◌, Option, none,
  some, String, leb, ltb, nat_beq, if◌then◌else◌, arith, le→leb, leb→le,
}
use native.Mathlib.Nat.{div-lt_iff_lt-mul, mul-le-mul_right}
use claude_azure_o11y.Prelude.Text.{show_nat, ◌<>◌}
use claude_azure_o11y.Float.{Float, Digits, IsFloat}

abbrev pub Fixed : Type 0
Fixed = ℕ

abbrev pub unit : ℕ
unit = 10_000

abbrev nearest : ℕ → ℕ → ℕ
nearest step x = (x + step / 2) / step * step

abbrev digits_from : ℕ → String → Option ℕ
digits_from n String.[] = some n
digits_from n (String.◌∷◌ c s) =
    let rest = digits_from (n * 10 + (code c - b'0')) s in
    if leb b'0' (code c) && leb (code c) b'9' then rest else none

abbrev parse_digits : String → Option Fixed
parse_digits String.[] = none
parse_digits s = elim (digits_from 0 s) [ none ↦ none | some n ↦ some (n * unit) ]

abbrev total : List Fixed → Fixed
total [] = 0
total (x ∷ xs) = x + total xs

-- No digits but those of ASCII.
abbrev pub plain_digits : Digits
plain_digits = record { is_digit = λ s. false; int = λ s. none }

instance abbrev pub fixed : Float Fixed
fixed = record {
  lt = ltb;
  le = leb;
  eq = nat_beq;
  add = λ x y. x + y;
  sub = λ x y. x - y;
  mul = λ x y. x * y / unit;
  div = λ x y. x * unit / y;
  of_nat = λ n. n * unit;
  sum_floats = total;
  round = λ x digits. nearest (10 ^ (4 - digits)) x;
  is_finite = λ x. true;
  ceil = λ x. (x + (unit - 1)) / unit;
  parse_float = parse_digits;
  to_int = λ x. x / unit;
  parse_int = digits_from 0;
  digits = plain_digits;
  show_g = λ x. show_nat (x / unit);
  show_percent = λ x. show_nat (x / 100) <> "%";
  show_fixed = λ d x. show_nat (x / unit);
  show_float = λ x. show_nat (x / unit);
  repr = λ s. "'" <> s <> "'";
}

div-le_of_le-mul : (x k q : ℕ) → 0 < k → x < (q + 1) * k → x / k ≤ q
div-le_of_le-mul x k q p h = let small : x / k < q + 1 = (div-lt_iff_lt-mul p).1 h in omega arith

div-le_one : (a b : ℕ) → a ≤ b → 0 < b → leb (a * unit * unit / (b * unit)) (1 * unit) ≡ true
div-le_one a b h p =
    le→leb _ _
      (div-le_of_le-mul (a * unit * unit) (b * unit) (1 * unit) (omega arith) (omega arith))

mul-le : (x n : ℕ) → leb x (1 * unit) ≡ true → leb (x * (n * unit) / unit) (n * unit) ≡ true
mul-le x n h =
    let small : x * (n * unit) ≤ unit * (n * unit) =
      mul-le-mul_right (n * unit) (leb→le x (1 * unit) h) in
    le→leb _ _ (div-le_of_le-mul (x * (n * unit)) unit (n * unit) (omega arith) (omega arith))

pub Fixed-IsFloat : IsFloat fixed
Fixed-IsFloat = record {
  le_self = λ x y h. (ground arith, ground arith);
  le_trans = λ x y z h k. ground arith;
  le_total = λ x y h k. ground arith;
  lt-not_le = λ x y h k. ground arith;
  lt_self = λ x y h. (ground arith, ground arith);
  le-of_nat = λ a b. ground arith;
  lt-of_nat = λ a b. ground arith;
  div-le_one = div-le_one;
  mul-le = mul-le;
  is_finite-of_le = λ x m n h k. refl;
  ceil-le = λ x n h. ground arith;
  le-ceil = λ x n h. ground arith;
}
