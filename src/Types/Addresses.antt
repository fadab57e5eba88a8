-- ===== src/Types/Addresses.antt =====
-- The address counts of src/resource_types/vnet.py.
use Prim.Native.Char.{Char}
use claude_azure_o11y.Prelude.{
  ℕ, zero, suc, ◌+◌, ◌-◌, ◌*◌, ◌^◌, ◌≤◌, ◌<◌, ◌≡◌, refl, ◌∙◌, ap, Bool, true, false, ◌&&◌, ◌||◌,
  not, Option, none, some, String, List, [], ◌∷◌, arith, length, ◌==◌, nat_eq, string_eq, option_eq,
  leb, option_beq_iff, Bool-cases, inl, inr, ltb, ◌⊎◌, All, ok, map_result,
}
use text.Mathlib.TextLemmas.{nil-append, cons-append}
use native.Mathlib.Nat.{pow-le-pow_right}
use claude_azure_o11y.Prelude.Text.{◌<>◌, has_char, show_nat}
use claude_azure_o11y.Float.{Digits}
use claude_azure_o11y.Types.Subnets.{
  behind_slash, ascii_length, size_of, int_of_digits, read_length, float_limit, ips_of_length,
  ips_of, prefix_ips, usable_from, usable_ips,
}

abbrev pub sum : List ℕ → ℕ
sum [] = 0
sum (n ∷ counts) = n + sum counts

-- A length whose distance from 32 is a float.
abbrev pub IsSmall : ℕ → Type 0
IsSmall bits = ltb (bits - 32) float_limit ≡ true

ips_of_length-le :
    (bits : ℕ) → IsSmall bits → (n : ℕ) × (ips_of_length bits ≡ ok n) × (n ≤ 4_294_967_291)
unfolding ips_of_length
ips_of_length-le bits small = elim (Bool-cases (leb bits 32)) [
  | inl t ↦
      let h : 2 ^ (32 - bits) ≤ 2 ^ 32 =
        pow-le-pow_right (omega arith) {i = 32 - bits} {j = 32} (omega arith) in
      (2 ^ (32 - bits) - 5, rw t refl, omega arith)
  | inr f ↦ (0, rw (f, small) refl, omega arith)
]

abbrev slash : Char
slash = "/"

slash-append : (t : String) → "/" <> t ≡ String.◌∷◌ slash t
slash-append t = cons-append slash "" t ∙ ap (String.◌∷◌ slash) (nil-append t)

-- Behind a slash comes the slash, in a text that is put together with one.
has_slash-append : (s t : String) → has_char b'/' (s <> ("/" <> t)) ≡ true
unfolding has_char
has_slash-append String.[] t = ap (has_char b'/') (nil-append ("/" <> t) ∙ slash-append t)
has_slash-append (String.◌∷◌ c s) t =
    let more = has_slash-append s t in
    ap (has_char b'/') (cons-append c s ("/" <> t)) ∙ ground arith

behind_slash-append : (s t : String) → has_char b'/' t ≡ false → behind_slash (s <> ("/" <> t)) ≡ t
unfolding behind_slash
behind_slash-append String.[] t h =
    ap behind_slash (nil-append ("/" <> t) ∙ slash-append t) ∙ rw h refl
behind_slash-append (String.◌∷◌ c s) t h =
    ap behind_slash (cons-append c s ("/" <> t))
    ∙ rw (has_slash-append s t) (behind_slash-append s t h)

has_char-append : (n : ℕ) (s t : String) → has_char n (s <> t) ≡ (has_char n s || has_char n t)
unfolding has_char
has_char-append n String.[] t = ap (has_char n) (nil-append t)
has_char-append n (String.◌∷◌ c s) t =
    let more = has_char-append n s t in ap (has_char n) (cons-append c s t) ∙ ground arith

-- Reading a length back that was printed, for the lengths of IPv4 prefixes.
reads_back : ℕ → Bool
unfolding ascii_length size_of show_nat
reads_back n =
    ((ascii_length (show_nat n) == some n) && not (ltb 4_300 (size_of (show_nat n))))
    && (not (has_char b'/' (show_nat n)) && not (has_char b':' (show_nat n)))

same_option : (o : Option ℕ) (n : ℕ) → (o == some n) ≡ true → o ≡ some n
same_option o n h = (option_beq_iff o (some n)).0 h

read_back :
    (n : ℕ)
    → reads_back n ≡ true
    → (ascii_length (show_nat n) ≡ some n)
      × (ltb 4_300 (size_of (show_nat n)) ≡ false)
      × (has_char b'/' (show_nat n) ≡ false)
      × (has_char b':' (String.◌∷◌ slash (show_nat n)) ≡ false)
unfolding reads_back has_char
read_back n h = (
  same_option (ascii_length (show_nat n)) n (ground arith),
  ground arith,
  ground arith,
  ground arith,
)

all_below : (ℕ → Bool) → ℕ → Bool
all_below p zero = true
all_below p (suc n) = p n && all_below p n

all_below-lt : (p : ℕ → Bool) (top n : ℕ) → all_below p top ≡ true → n < top → p n ≡ true
unfolding all_below
all_below-lt p zero n h l = absurd (omega arith)
all_below-lt p (suc top) n h l = elim (Bool-cases (n == top)) [
  | inl t ↦ let same : n ≡ top = ground arith in ap p same ∙ ground arith
  | inr f ↦ all_below-lt p top n (ground arith) (ground arith)
]

lengths_read : all_below reads_back 33 ≡ true
unfolding all_below reads_back has_char
lengths_read = refl

module _ (digits : Digits) where
  -- What stands behind the slash is a number that `int` reads and that is small enough, or is none.
  abbrev pub IsReadable : String → Type 0
  IsReadable p =
      let s = behind_slash p in
      ((n : ℕ) × (ascii_length s ≡ some n) × (size_of s ≤ 4_300) × IsSmall n)
      ⊎ ((n : ℕ) × (ascii_length s ≡ none) × (digits.int s ≡ some n) × IsSmall n)
      ⊎ ((ascii_length s ≡ none) × (digits.is_digit s ≡ false))

  read_length-ascii :
      (s : String) (n : ℕ)
      → ascii_length s ≡ some n
      → ltb 4_300 (size_of s) ≡ false
      → read_length digits s ≡ ok (some n)
  unfolding read_length int_of_digits
  read_length-ascii s n e short = rw (e, read_length) (rw short refl)

  abbrev IsLength : String → Type 0
  IsLength s =
      (o : Option ℕ) × (read_length digits s ≡ ok o)
      × (n : ℕ) × (ips_of o ≡ ok n)
      × (n ≤ 4_294_967_291)

  some-IsLength : (s : String) (n : ℕ) → read_length digits s ≡ ok (some n) → IsSmall n → IsLength s
  unfolding ips_of
  some-IsLength s n e small =
      let (m, made, bound) = ips_of_length-le n small in (some n, e, m, made, bound)

  readable-IsLength : (p : String) → IsReadable p → IsLength (behind_slash p)
  unfolding read_length ips_of
  readable-IsLength p (inl (n, e, short, small)) =
      some-IsLength (behind_slash p) n (read_length-ascii (behind_slash p) n e (ground arith)) small
  readable-IsLength p (inr (inl (n, none_read, e, small))) =
      elim (Bool-cases (digits.is_digit (behind_slash p))) [
        | inl t ↦
            some-IsLength (behind_slash p) n (rw (none_read, read_length) (rw (t, e) refl)) small
        | inr f ↦ (none, rw (none_read, read_length) (rw f refl), 0, refl, omega arith)
      ]
  readable-IsLength p (inr (inr (none_read, f))) =
      (none, rw (none_read, read_length) (rw f refl), 0, refl, omega arith)

  prefix_ips-le :
      (p : String) → IsReadable p → (n : ℕ) × (prefix_ips digits p ≡ ok n) × (n ≤ 4_294_967_291)
  unfolding prefix_ips
  prefix_ips-le p readable =
      let (o, read, n, made, bound) = readable-IsLength p readable in
      elim (Bool-cases (has_char b':' p)) [
        | inl t ↦ (0, rw t refl, omega arith)
        | inr f ↦ (n, rw (f, read) made, bound)
      ]

  usable_from-sum :
      (total : ℕ) (prefixes : List String)
      → All IsReadable prefixes
      → (counts : List ℕ) × (map_result (prefix_ips digits) prefixes ≡ ok counts)
        × (usable_from digits total prefixes ≡ ok (total + sum counts))
        × (sum counts ≤ length prefixes * 4_294_967_291)
  unfolding usable_from map_result
  usable_from-sum total [] h = ([], refl, ap ok (omega arith), omega arith)
  usable_from-sum total (p ∷ prefixes) (h, hs) =
      let (n, own, small) = prefix_ips-le p h in
      let (counts, rest, added, bound) = usable_from-sum (total + n) prefixes hs in
      let same : total + n + sum counts ≡ total + (n + sum counts) = omega arith in
      (n ∷ counts, rw (own, rest) refl, rw own (added ∙ ap ok same), omega arith)

  -- When behind the slash of each prefix there is no number, or one that `int` reads and that is at
  -- most 32 above what a float can hold, the usable addresses of a subnet are returned: they are the sum
  -- of what each of its prefixes gives, and at most 2 ^ 32 - 5 for each prefix.
  pub usable_ips-le :
      (prefixes : List String)
      → All IsReadable prefixes
      → (counts : List ℕ) × (map_result (prefix_ips digits) prefixes ≡ ok counts)
        × (usable_ips digits prefixes ≡ ok (sum counts))
        × (sum counts ≤ length prefixes * 4_294_967_291)
  unfolding usable_ips
  usable_ips-le prefixes h =
      let (counts, each, added, bound) = usable_from-sum 0 prefixes h in
      let same : 0 + sum counts ≡ sum counts = omega arith in
      (counts, each, added ∙ ap ok same, bound)

  -- A prefix that is printed from an IPv4 address, which has no colon, and a length up to 32 is read
  -- back: it has 2 ^ (32 - length) addresses less the 5 that Azure reserves, and none where that is
  -- less than 0.
  pub prefix_ips-printed :
      (address : String) (n : ℕ)
      → n ≤ 32
      → has_char b':' address ≡ false
      → prefix_ips digits (address <> ("/" <> show_nat n)) ≡ ok (2 ^ (32 - n) - 5)
  unfolding prefix_ips ips_of ips_of_length
  prefix_ips-printed address n small v4 =
      let (read, short, free, plain) =
        read_back n (all_below-lt reads_back 33 n lengths_read (omega arith)) in
      let no_colon : has_char b':' (address <> ("/" <> show_nat n)) ≡ false =
        has_char-append b':' address ("/" <> show_nat n)
        ∙ (ap (λ b. b || has_char b':' ("/" <> show_nat n)) v4
            ∙ (ap (has_char b':') (slash-append (show_nat n)) ∙ plain)) in
      rw
        (
          no_colon,
          behind_slash-append address (show_nat n) free,
          read_length-ascii (show_nat n) n read,
        )
        (let fits : leb n 32 ≡ true = ground arith in rw fits refl)
