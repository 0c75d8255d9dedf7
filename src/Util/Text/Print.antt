-- ===== src/Util/Text/Print.antt =====
-- Numbers printed in radix 10 and 16 are read back.
use Prim.Native.Char.{Char, code}
use pokedex.Prelude.{
  ℕ, zero, suc, ◌+◌, ◌*◌, ◌/◌, ◌%◌, ◌^◌, ◌<◌, ◌≡◌, refl, ap, ◌∙◌, Bool, true, false, not, ◌&&◌,
  some, List, [], ◌∷◌, String, ◌==◌, arith, ltb, ==_iff, if◌then◌else◌, get_or, ok, Bool-cases, inl,
  inr,
}
use native.Mathlib.Nat.{pow-suc}
use pokedex.Util.Text.{
  all_chars, is_empty, is_ascii_digit, is_ascii_hexdigit, to_digit, from_str_radix,
}
use pokedex.Util.Text.Digits.{spelled, read_digits_iff, from_str_radix-digits}

abbrev digit_chars : List Char
digit_chars =
    "0" ∷ "1" ∷ "2" ∷ "3" ∷ "4" ∷ "5" ∷ "6" ∷ "7" ∷ "8" ∷ "9" ∷ "a" ∷ "b" ∷ "c" ∷ "d" ∷ "e" ∷ "f"
    ∷ []

unfoldable pub digit_char : ℕ → Char
digit_char d = get_or digit_chars d "0"

every : (ℕ → Bool) → ℕ → Bool
every test zero = true
every test (suc k) = every test k && test k

every-lt : (test : ℕ → Bool) (k d : ℕ) → d < k → every test k ≡ true → test d ≡ true
unfolding every
every-lt test zero d below h = absurd (omega arith)
every-lt test (suc k) d below h = ground (arith, every-lt test k d)

abbrev digit_code : ℕ → ℕ
digit_code d = if ltb d 10 then 48 + d else 87 + d

digit_table : every (λ d. code (digit_char d) == digit_code d) 16 ≡ true
unfolding every digit_char
digit_table = refl

code-digit_char : (d : ℕ) → d < 16 → code (digit_char d) ≡ digit_code d
code-digit_char d h =
    (==_iff _ (digit_code d)).0
      (every-lt (λ d. code (digit_char d) == digit_code d) 16 d h digit_table)

to_digit-hex : (d : ℕ) → d < 16 → to_digit 16 (digit_char d) ≡ some d
unfolding to_digit
to_digit-hex d h = ground (arith, code-digit_char d h)

to_digit-decimal : (d : ℕ) → d < 10 → to_digit 10 (digit_char d) ≡ some d
unfolding to_digit
to_digit-decimal d h = ground (arith, code-digit_char d (omega arith))

-- The last digits of a number, before a text.
unfoldable pub digits : ℕ → ℕ → ℕ → String → String
digits radix zero n out = out
digits radix (suc width) n out =
    digits radix width (n / radix) (String.◌∷◌ (digit_char (n % radix)) out)

last_hex :
    (n : ℕ) (out : String)
    → spelled 16 (n / 16) (String.◌∷◌ (digit_char (n % 16)) out) ≡ spelled 16 n out
unfolding spelled
last_hex n out =
    let split : n / 16 * 16 + n % 16 ≡ n = omega arith in
    rw (to_digit-hex (n % 16) (omega arith), spelled) (ap (λ k. spelled 16 k out) split)

pub spelled-hex :
    (width n : ℕ) (out : String)
    → n < 16 ^ width
    → spelled 16 0 (digits 16 width n out) ≡ spelled 16 n out
unfolding digits
spelled-hex zero n out h = let none_left : n ≡ 0 = omega arith in rw none_left refl
spelled-hex (suc width) n out h =
    spelled-hex width (n / 16) (String.◌∷◌ (digit_char (n % 16)) out)
      (omega (arith, pow-suc 16 width))
    ∙ last_hex n out

last_decimal :
    (n : ℕ) (out : String)
    → spelled 10 (n / 10) (String.◌∷◌ (digit_char (n % 10)) out) ≡ spelled 10 n out
unfolding spelled
last_decimal n out =
    let split : n / 10 * 10 + n % 10 ≡ n = omega arith in
    rw (to_digit-decimal (n % 10) (omega arith), spelled) (ap (λ k. spelled 10 k out) split)

spelled-decimal :
    (width n : ℕ) (out : String)
    → n < 10 ^ width
    → spelled 10 0 (digits 10 width n out) ≡ spelled 10 n out
unfolding digits
spelled-decimal zero n out h = let none_left : n ≡ 0 = omega arith in rw none_left refl
spelled-decimal (suc width) n out h =
    spelled-decimal width (n / 10) (String.◌∷◌ (digit_char (n % 10)) out)
      (omega (arith, pow-suc 10 width))
    ∙ last_decimal n out

hex_digit : (d : ℕ) → d < 16 → is_ascii_hexdigit (digit_char d) ≡ true
hex_digit d h = ground (arith, code-digit_char d h)

decimal_digit : (d : ℕ) → d < 10 → is_ascii_digit (digit_char d) ≡ true
decimal_digit d h = ground (arith, code-digit_char d (omega arith))

pub hex_chars :
    (width n : ℕ) (out : String)
    → all_chars is_ascii_hexdigit out ≡ true
    → all_chars is_ascii_hexdigit (digits 16 width n out) ≡ true
unfolding digits
hex_chars zero n out h = h
hex_chars (suc width) n out h =
    let digit = hex_digit (n % 16) (omega arith) in hex_chars width (n / 16) _ (rw (digit, h) refl)

decimal_chars :
    (width n : ℕ) (out : String)
    → all_chars is_ascii_digit out ≡ true
    → all_chars is_ascii_digit (digits 10 width n out) ≡ true
unfolding digits
decimal_chars zero n out h = h
decimal_chars (suc width) n out h =
    let digit = decimal_digit (n % 10) (omega arith) in
    decimal_chars width (n / 10) _ (rw (digit, h) refl)

pub digits-letters :
    (radix width n : ℕ) (out : String)
    → is_empty out ≡ false
    → is_empty (digits radix width n out) ≡ false
unfolding digits
digits-letters radix zero n out h = h
digits-letters radix (suc width) n out h = digits-letters radix width (n / radix) _ refl

-- The digits of a decimal number without leading zeros, of a number that has at most `fuel`.
unfoldable pub width_of : ℕ → ℕ → ℕ
width_of zero n = 1
width_of (suc fuel) n = let rest = suc (width_of fuel (n / 10)) in if ltb n 10 then 1 else rest

width_of-fits : (fuel n : ℕ) → n < 10 ^ suc fuel → n < 10 ^ width_of fuel n
unfolding width_of
width_of-fits zero n h = h
width_of-fits (suc fuel) n h = elim (Bool-cases (ltb n 10)) [
  | inl small ↦ rw small (ground arith)
  | inr large ↦ rw large (
      omega (
        arith,
        width_of-fits fuel (n / 10) (omega (arith, pow-suc 10 (suc fuel))),
        pow-suc 10 (width_of fuel (n / 10)),
      ))
]

-- `%d`, for numbers of less than 21 digits
unfoldable pub decimal : ℕ → String
decimal n = digits 10 (width_of 19 n) n String.[]

-- `%0*x`
unfoldable pub hex : ℕ → ℕ → String
unfolding digits
hex width n = digits 16 width n String.[]

digits-ne-nil : (radix width n : ℕ) → 0 < width → is_empty (digits radix width n String.[]) ≡ false
unfolding digits
digits-ne-nil radix zero n h = absurd (omega arith)
digits-ne-nil radix (suc width) n h = digits-letters radix width (n / radix) _ refl

width_of-pos : (fuel n : ℕ) → 0 < width_of fuel n
unfolding width_of
width_of-pos zero n = omega arith
width_of-pos (suc fuel) n = ground arith

pub hex_text :
    (width n : ℕ)
    → 0 < width
    → (not (is_empty (hex width n)) && all_chars is_ascii_hexdigit (hex width n)) ≡ true
unfolding hex
hex_text width n h = ground (arith, digits-ne-nil 16 width n h, hex_chars width n String.[] refl)

pub decimal_text :
    (n : ℕ) → (not (is_empty (decimal n)) && all_chars is_ascii_digit (decimal n)) ≡ true
unfolding decimal
decimal_text n = ground (
  arith,
  digits-ne-nil 10 (width_of 19 n) n (width_of-pos 19 n),
  decimal_chars (width_of 19 n) n String.[] refl,
)

from_str_radix-spelled :
    (size radix : ℕ) (s : String) (n : ℕ)
    → (not (is_empty s) && all_chars is_ascii_hexdigit s) ≡ true
    → 0 < radix
    → spelled radix 0 s ≡ some n
    → n < size
    → from_str_radix size radix s ≡ ok n
from_str_radix-spelled size radix String.[] n text r e fits = absurd (cc)
from_str_radix-spelled size radix (String.◌∷◌ c s) n text r e fits =
    from_str_radix-digits size radix c s (ground arith)
    ∙ (read_digits_iff size radix 0 (String.◌∷◌ c s) n r (omega arith)).1 (e, fits)

-- A number that is printed in enough digits is read back from a type that holds it.
pub from_str_radix-hex :
    (size width n : ℕ)
    → 0 < width
    → n < 16 ^ width
    → n < size
    → from_str_radix size 16 (hex width n) ≡ ok n
unfolding hex spelled
from_str_radix-hex size width n pos h fits =
    from_str_radix-spelled size 16 (hex width n) n (hex_text width n pos) (omega arith)
      (spelled-hex width n String.[] h) fits

digits_are_hex :
    (s : String) → all_chars is_ascii_digit s ≡ true → all_chars is_ascii_hexdigit s ≡ true
digits_are_hex String.[] h = refl
digits_are_hex (String.◌∷◌ c s) h = ground (arith, digits_are_hex s)

pub from_str_radix-decimal :
    (size n : ℕ) → n < 10 ^ 20 → n < size → from_str_radix size 10 (decimal n) ≡ ok n
unfolding decimal spelled
from_str_radix-decimal size n h fits =
    let text = decimal_text n in
    from_str_radix-spelled size 10 (decimal n) n (ground (arith, digits_are_hex (decimal n)))
      (omega arith) (spelled-decimal (width_of 19 n) n String.[] (width_of-fits 19 n h)) fits
