-- ===== src/Prelude/Text.antt =====
-- The operations of Python's `str` and `int` that the program uses. Letters are those of ASCII:
-- `lower` and `upper` leave every other character as it is.
use Prim.Native.Nat.{ℕ, zero, suc, ◌-◌, ◌/◌, ◌%◌}
use Prim.Native.Char.{Char, code}
use Prim.Native.String.{String, char_at, ◌++◌ as str_append}
use mathlib.Core.Path.{◌≡◌, refl}
use mathlib.Core.Bool.{Bool, true, false, ◌&&◌, ◌||◌}
use mathlib.Core.List.{List, [], ◌∷◌}
use claude_azure_o11y.Prelude.Tests.{ltb, leb, nat_beq, ◌==◌, string_eq, if◌then◌else◌}

infixr 65 ◌<>◌
abbrev pub ◌<>◌ : String → String → String
s <> t = str_append s t

lower_char : Char → Char
lower_char c =
    if leb 65 (code c) && leb (code c) 90
    then char_at "abcdefghijklmnopqrstuvwxyz" (code c - 65)
    else c

unfoldable pub lower : String → String
unfolding lower_char
lower String.[] = ""
lower (String.◌∷◌ c s) = String.◌∷◌ (lower_char c) (lower s)

upper_char : Char → Char
upper_char c =
    if leb 97 (code c) && leb (code c) 122
    then char_at "ABCDEFGHIJKLMNOPQRSTUVWXYZ" (code c - 97)
    else c

unfoldable pub upper : String → String
unfolding upper_char
upper String.[] = ""
upper (String.◌∷◌ c s) = String.◌∷◌ (upper_char c) (upper s)

unfoldable pub capitalize : String → String
unfolding upper_char lower
capitalize String.[] = ""
capitalize (String.◌∷◌ c s) = String.◌∷◌ (upper_char c) (lower s)

-- What `str.strip` removes.
is_space : ℕ → Bool
is_space n =
    (leb 9 n && leb n 13)
    || ((leb 28 n && leb n 32)
        || (nat_beq n 133
            || (nat_beq n 160
                || (nat_beq n 5760
                    || ((leb 8192 n && leb n 8202)
                        || (nat_beq n 8232
                            || (nat_beq n 8233
                                || (nat_beq n 8239 || (nat_beq n 8287 || nat_beq n 12288)))))))))

strip_left : String → String
unfolding is_space
strip_left String.[] = ""
strip_left (String.◌∷◌ c s) =
    let rest = strip_left s in if is_space (code c) then rest else String.◌∷◌ c s

abbrev is_nil : String → Bool
is_nil String.[] = true
is_nil (String.◌∷◌ c s) = false

strip_right : String → String
unfolding is_space
strip_right String.[] = ""
strip_right (String.◌∷◌ c s) =
    let rest = strip_right s in if is_space (code c) && is_nil rest then "" else String.◌∷◌ c rest

unfoldable pub strip : String → String
unfolding strip_left strip_right
strip s = strip_right (strip_left s)

-- `bool(s)`
abbrev pub is_text : String → Bool
is_text String.[] = false
is_text (String.◌∷◌ c s) = true

-- `s or t`
abbrev pub or_text : String → String → String
or_text s t = if is_text s then s else t

unfoldable pub digit : ℕ → String
digit d = String.◌∷◌ (char_at "0123456789" d) ""

-- The decimal digits of `n`, on fuel above `n`.
show_from : ℕ → ℕ → String
unfolding digit
show_from zero n = ""
show_from (suc fuel) n = elim (ltb n 10) [
  | true ↦ digit n
  | false ↦ show_from fuel (n / 10) <> digit (n % 10)
]

-- `str(n)`
unfoldable pub show_nat : ℕ → String
unfolding show_from
show_nat n = show_from (suc n) n

-- `sep.join(parts)`
unfoldable pub join : String → List String → String
join sep [] = ""
join sep (s ∷ rest) = elim rest [ [] ↦ s | _ ∷ _ ↦ s <> (sep <> join sep rest) ]

-- `s.split(",")`: the pieces between the occurrences of one character.
split_from : ℕ → String → String → List String
split_from sep piece String.[] = piece ∷ []
split_from sep piece (String.◌∷◌ c s) =
    let ended = piece ∷ split_from sep "" s in
    let longer = split_from sep (piece <> String.◌∷◌ c "") s in
    if nat_beq (code c) sep then ended else longer

unfoldable pub split : ℕ → String → List String
unfolding split_from
split sep s = split_from sep "" s

-- `c in s`, of one character.
unfoldable pub has_char : ℕ → String → Bool
has_char n String.[] = false
has_char n (String.◌∷◌ c s) = nat_beq (code c) n || has_char n s

-- `s < t`, by code points.
unfoldable pub before : (s t : String) → Bool
before s String.[] = false
before String.[] (String.◌∷◌ d t) = true
before (String.◌∷◌ c s) (String.◌∷◌ d t) =
    let rest = before s t in ltb (code c) (code d) || (nat_beq (code c) (code d) && rest)

-- `s.startswith(prefix)`
unfoldable pub starts_with : (prefix s : String) → Bool
starts_with String.[] s = true
starts_with (String.◌∷◌ c p) String.[] = false
starts_with (String.◌∷◌ c p) (String.◌∷◌ d s) = nat_beq (code c) (code d) && starts_with p s

-- `part in s`
unfoldable pub contains : (part s : String) → Bool
unfolding starts_with
contains part String.[] = starts_with part ""
contains part (String.◌∷◌ c s) = starts_with part (String.◌∷◌ c s) || contains part s

-- `s.endswith(suffix)`: some tail of `s` is the suffix.
unfoldable pub ends_with : (suffix s : String) → Bool
ends_with suffix String.[] = String.[] == suffix
ends_with suffix (String.◌∷◌ c s) = String.◌∷◌ c s == suffix || ends_with suffix s

lower_mixed : lower "Microsoft.Compute/VirtualMachines" ≡ "microsoft.compute/virtualmachines"
unfolding lower
lower_mixed = refl

strip_spaces : strip "  true\n" ≡ "true"
unfolding strip
strip_spaces = refl

show_730 : show_nat 730 ≡ "730"
unfolding show_nat
show_730 = refl

split_list : split b',' "vm,sqldb," ≡ "vm" ∷ "sqldb" ∷ "" ∷ []
unfolding split
split_list = refl
