-- ===== src/Prelude/Results.antt =====
-- A Python call returns a value or raises.
use Prim.Native.String.{String}
use mathlib.Core.Path.{◌≡◌, refl}
use mathlib.Core.List.{List, [], ◌∷◌}
use mathlib.Core.Bool.{Bool, true, false}
use claude_azure_o11y.Prelude.Tests.{if◌then◌else◌}
use claude_azure_o11y.Prelude.Lists.{All}
use native.Mathlib.Omega.{arith}

-- `permission_missing` is `errors.PermissionMissing`, with its need and its detail; `exception` is
-- any other exception, with the name of its type and its text.
pub data Exception : Type 0 where
  permission_missing : (need detail : String) → Exception
  exception : (name text : String) → Exception

pub data Result {ℓ} (A : Type ℓ) : Type ℓ where
  err : (raised : Exception) → Result A
  ok : (value : A) → Result A

module _ {ℓ κ} {A : Type ℓ} {B : Type κ} where
  infixl 5 ◌>>=◌
  -- The rest of the code, with the value of a call that returned.
  abbrev pub ◌>>=◌ : Result A → (A → Result B) → Result B
  err x >>= rest = err x
  ok value >>= rest = rest value

  -- Code that returned went through its first call.
  pub >>=-eq-ok :
      (call : Result A) (rest : A → Result B) {last : B}
      → (call >>= rest) ≡ ok last
      → (value : A) × (call ≡ ok value) × (rest value ≡ ok last)
  >>=-eq-ok (err x) rest e = cc
  >>=-eq-ok (ok value) rest e = (value, refl, e)

abbrev pub value_error : String → Exception
value_error text = exception "ValueError" text

abbrev pub type_error : String → Exception
type_error text = exception "TypeError" text

abbrev pub assertion_error : String → Exception
assertion_error text = exception "AssertionError" text

abbrev pub key_error : String → Exception
key_error text = exception "KeyError" text

abbrev pub zero_division : Exception
zero_division = exception "ZeroDivisionError" "division by zero"

-- A call for each element, in order; the first exception ends the loop.
module _ {ℓ κ} {A : Type ℓ} {B : Type κ} where
  unfoldable pub map_result : (A → Result B) → List A → Result (List B)
  map_result f [] = ok []
  map_result f (x ∷ xs) = do y ← f x; ys ← map_result f xs; ok (y ∷ ys)

-- The call returns.
abbrev pub Returns : {A : Type 0} → Result A → Type 0
Returns {A} m = (a : A) × (m ≡ ok a)

pub bind-Returns :
    {A B : Type 0} (m : Result A) (f : A → Result B)
    → Returns m
    → ((a : A) → m ≡ ok a → Returns (f a))
    → Returns (m >>= f)
bind-Returns (ok a) f h q = q a refl
bind-Returns (err x) f (a, e) q = absurd (ground arith)

pub if-Returns :
    {A : Type 0} (b : Bool) (m k : Result A)
    → (b ≡ true → Returns m)
    → (b ≡ false → Returns k)
    → Returns (if b then m else k)
if-Returns true m k f g = f refl
if-Returns false m k f g = g refl

pub map_result-Returns :
    {A B : Type 0} (f : A → Result B) (xs : List A)
    → All (λ x. Returns (f x)) xs
    → Returns (map_result f xs)
unfolding map_result
map_result-Returns f [] h = ([], refl)
map_result-Returns f (x ∷ xs) (h, hs) =
    bind-Returns (f x) (λ y. map_result f xs >>= λ ys. ok (y ∷ ys)) h
      (λ y e.
        bind-Returns (map_result f xs) (λ ys. ok (y ∷ ys)) (map_result-Returns f xs hs)
          (λ ys e'. (y ∷ ys, refl)))

-- A call that returns gives a value of `Q`, and one that raises an exception of `E`.
abbrev pub Ensures : {A : Type 0} → (Exception → Type 0) → (A → Type 0) → Result A → Type 0
Ensures E Q (ok a) = Q a
Ensures E Q (err x) = E x

pub bind-Ensures :
    {A B : Type 0} (E : Exception → Type 0) (Q : A → Type 0) (R : B → Type 0) (m : Result A)
    (f : A → Result B)
    → Ensures E Q m
    → ((a : A) → Q a → Ensures E R (f a))
    → Ensures E R (m >>= f)
bind-Ensures E Q R (ok a) f h k = k a h
bind-Ensures E Q R (err x) f h k = h
