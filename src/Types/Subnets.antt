-- ===== src/Types/Subnets.antt =====
-- src/resource_types/vnet.py: subnets and their address counts.
use claude_azure_o11y.Prelude.{
  ℕ, suc, exception, ◌+◌, ◌-◌, ◌*◌, ◌^◌, ◌&&◌, Option, none, some, String, List, [], ◌∷◌, map,
  Result, ok, err, ◌>>=◌, type_error, value_error, leb, ltb, ◌==◌, nat_eq, if◌then◌else◌,
}
use Prim.Native.Char.{code}
use claude_azure_o11y.Prelude.Text.{◌<>◌, has_char, join}
use claude_azure_o11y.Prelude.Dict
use claude_azure_o11y.Float.{Float, Digits}
use claude_azure_o11y.Models.{Resource, nat, flag, num, text, texts}
use claude_azure_o11y.Models.Props.{str_of}
use claude_azure_o11y.Types.Row.{
  Row, Cell, Item, plain, array, object, leaf, entry, cell, cell_truth, cell_str, flag_column,
  count_column, required, base_resource,
}

-- `s.rpartition("/")[2]`: what stands behind the last slash, or the whole text.
unfoldable pub behind_slash : String → String
behind_slash String.[] = ""
behind_slash (String.◌∷◌ c s) =
    let rest = behind_slash s in
    if has_char b'/' s then rest else if code c == b'/' then s else String.◌∷◌ c s

-- The digits of a text as a number, behind the number `n` that was read so far; `none` where a
-- character is no digit.
unfoldable pub digits_from : ℕ → String → Option ℕ
digits_from n String.[] = some n
digits_from n (String.◌∷◌ c s) =
    let rest = digits_from (n * 10 + (code c - b'0')) s in
    if leb b'0' (code c) && leb (code c) b'9' then rest else none

-- `int(length)` of a text of ASCII digits.
unfoldable pub ascii_length : String → Option ℕ
unfolding digits_from
ascii_length String.[] = none
ascii_length (String.◌∷◌ c s) = digits_from 0 (String.◌∷◌ c s)

-- `len(s)`
unfoldable pub size_of : String → ℕ
size_of String.[] = 0
size_of (String.◌∷◌ c s) = suc (size_of s)

-- `int(s)` of ASCII digits: Python reads up to 4300 of them.
unfoldable pub int_of_digits : String → ℕ → Result (Option ℕ)
unfolding size_of
int_of_digits s n =
    if ltb 4_300 (size_of s)
    then err (value_error "Exceeds the limit (4300 digits) for integer string conversion")
    else ok (some n)

-- `int(length) if length.isdigit()`: a digit beyond ASCII passes the test, and `int` refuses it or
-- reads it.
unfoldable pub read_length : Digits → String → Result (Option ℕ)
unfolding ascii_length int_of_digits
read_length digits s = elim (ascii_length s) [
  | some n ↦ int_of_digits s n
  | none ↦
      if digits.is_digit s
      then elim (digits.int s) [
        | none ↦ err (value_error ("invalid literal for int() with base 10: '" <> s <> "'"))
        | some n ↦ ok (some n)
      ]
      else ok none
]

-- The least integer that is too large for a float.
unfoldable pub float_limit : ℕ
float_limit = 2 ^ 1024 - 2 ^ 970

-- `max(0, 2 ** (32 - length) - 5)`: beyond 32 bits the power is a fraction, with the exponent made a
-- float.
unfoldable pub ips_of_length : ℕ → Result ℕ
ips_of_length length =
    if leb length 32
    then ok (2 ^ (32 - length) - 5)
    else if ltb (length - 32) float_limit
    then ok 0
    else err (exception "OverflowError" "int too large to convert to float")

-- What a length adds, and nothing without one.
unfoldable pub ips_of : Option ℕ → Result ℕ
unfolding ips_of_length
ips_of none = ok 0
ips_of (some length) = ips_of_length length

module _ (digits : Digits) where
  -- What one prefix adds to the total.
  unfoldable pub prefix_ips : String → Result ℕ
  unfolding behind_slash read_length ips_of
  prefix_ips p = if has_char b':' p then ok 0 else (read_length digits (behind_slash p) >>= ips_of)

  unfoldable pub usable_from : ℕ → List String → Result ℕ
  unfolding prefix_ips
  usable_from total [] = ok total
  usable_from total (p ∷ prefixes) = prefix_ips p >>= λ n. usable_from (total + n) prefixes

  unfoldable pub usable_ips : List String → Result ℕ
  unfolding usable_from
  usable_ips prefixes = usable_from 0 prefixes

-- The characters of a text, as texts.
abbrev each_char : String → List String
each_char String.[] = []
each_char (String.◌∷◌ c s) = String.◌∷◌ c "" ∷ each_char s

module _ {F : Type 0} ⦃fl : Float F⦄ where
  -- `str(p)` of an item
  unfoldable pub item_str : Item F → String
  item_str (leaf v) = str_of v
  item_str (entry shown profile) = shown

  -- `[str(p) for p in c]`
  unfoldable pub iterated : Cell F → Result (List String)
  unfolding item_str
  iterated (array shown items) = ok (map item_str items)
  iterated (object shown entries) = ok (Dict.keys entries)
  iterated (plain (text s)) = ok (each_char s)
  iterated (plain v) = err (type_error "object is not iterable")

  unfoldable pub prefixes_of : Row F → Result (List String)
  unfolding iterated cell cell_truth cell_str flag_column
  prefixes_of row =
      if flag_column row "prefixes"
      then iterated (cell row "prefixes")
      else if flag_column row "prefix"
      then ok (cell_str (cell row "prefix") ∷ [])
      else ok []

  -- `round(ip_used / ip_usable * 100, 2) if ip_usable > 0 else 0.0`
  unfoldable pub utilization : (ip_used ip_usable : ℕ) → F
  utilization ip_used ip_usable =
      if ltb 0 ip_usable
      then fl.round (fl.mul (fl.div (fl.of_nat ip_used) (fl.of_nat ip_usable)) (fl.of_nat 100)) 2
      else fl.of_nat 0

  -- `vnet.parse`
  unfoldable pub parse_vnet : Row F → Result (Resource F)
  unfolding prefixes_of usable_ips utilization
  parse_vnet row = prefixes_of row >>= λ prefixes. usable_ips fl.digits prefixes >>= λ ip_usable.
      count_column row "ipUsed" >>= λ ip_used. required row "vnetId" >>= λ vnet_id.
      base_resource row "vnet" "microsoft.network/virtualnetworks/subnets" (join ", " prefixes) (
        ("vnet_id", text vnet_id)
        ∷ ("prefixes", texts prefixes)
        ∷ ("ip_usable", nat ip_usable)
        ∷ ("ip_used", nat ip_used)
        ∷ ("utilization_percent", num (utilization ip_used ip_usable))
        ∷ ("delegated", flag (flag_column row "delegated"))
        ∷ [])
