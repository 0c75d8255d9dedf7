-- ===== src/Util/Text/Digits.antt =====
-- What an integer read from a text is, and printed integers read back.
use Prim.Native.Char.{Char, code}
use Prim.Native.Nat.{◌≤◌}
use pokedex.Prelude.{
  ℕ, ◌+◌, ◌-◌, ◌*◌, ◌<◌, ◌≡◌, refl, ◌≢◌, true, Option, none, some, String, leb, if◌then◌else◌, ok,
  panic, arith, Option-cases, ◌||◌, ◌↔◌, inl, inr,
}
use pokedex.Util.Text.{to_digit, read_digits, from_str_radix, is_ascii_hexdigit, is_ascii_digit}

-- The number that a text spells behind `n`, with no bound; `none` where a character is no digit.
unfoldable pub spelled : ℕ → ℕ → String → Option ℕ
spelled radix n String.[] = some n
spelled radix n (String.◌∷◌ c s) = elim (to_digit radix c) [
  | none ↦ none
  | some d ↦ spelled radix (n * radix + d) s
]

le-mul : (n radix : ℕ) → 0 < radix → n ≤ n * radix
le-mul n radix h = grind arith

-- A radix of a program's literals is positive.
spelled-le : (radix n : ℕ) (s : String) {m : ℕ} → 0 < radix → spelled radix n s ≡ some m → n ≤ m
unfolding spelled
spelled-le radix n String.[] h e = ground arith
spelled-le radix n (String.◌∷◌ c s) {m} h e = elim (Option-cases (to_digit radix c)) [
  | inl bad ↦ ground arith
  | inr (d, good) ↦
      ground (arith, good, le-mul n radix h, spelled-le radix (n * radix + d) s {m = m} h)
]

pub read_digits_iff :
    (size radix n : ℕ) (s : String) (m : ℕ)
    → 0 < radix
    → n < size
    → (read_digits size radix n s ≡ ok m) ↔ ((spelled radix n s ≡ some m) × (m < size))
unfolding read_digits spelled
read_digits_iff size radix n String.[] m h lt = ground arith
read_digits_iff size radix n (String.◌∷◌ c s) m h lt = elim (Option-cases (to_digit radix c)) [
  | inl bad ↦ ground arith
  | inr (d, good) ↦ ground (
    arith,
    good,
    le-mul n radix h,
    spelled-le radix (n * radix + d) s {m = m} h,
    read_digits_iff size radix (n * radix + d) s m h,
  )
]

read_digits-ne-panic : (size radix n : ℕ) (s : String) → read_digits size radix n s ≢ panic
unfolding read_digits
read_digits-ne-panic size radix n String.[] e = cc
read_digits-ne-panic size radix n (String.◌∷◌ c s) e = elim (Option-cases (to_digit radix c)) [
  | inl bad ↦ ground arith
  | inr (d, good) ↦ ground (arith, good, read_digits-ne-panic size radix (n * radix + d) s)
]

pub from_str_radix-ne-panic : (size radix : ℕ) (s : String) → from_str_radix size radix s ≢ panic
unfolding from_str_radix
from_str_radix-ne-panic size radix String.[] e = cc
from_str_radix-ne-panic size radix (String.◌∷◌ c String.[]) e =
    read_digits-ne-panic size radix 0 (String.◌∷◌ c String.[]) e
from_str_radix-ne-panic size radix (String.◌∷◌ c (String.◌∷◌ d s)) e = ground (
  arith,
  read_digits-ne-panic size radix 0 (String.◌∷◌ d s),
  read_digits-ne-panic size radix 0 (String.◌∷◌ c (String.◌∷◌ d s)),
)

abbrev hex_value : Char → ℕ
hex_value c =
    if is_ascii_digit c
    then code c - b'0'
    else if leb b'a' (code c)
    then code c - b'a' + 10
    else code c - b'A' + 10

-- A hexadecimal digit has a value below 16, and a decimal one below 10.
pub to_digit-hexdigit :
    (c : Char) → is_ascii_hexdigit c ≡ true → (d : ℕ) × (to_digit 16 c ≡ some d) × (d < 16)
unfolding to_digit
to_digit-hexdigit c h = (hex_value c, ground arith, ground arith)

pub to_digit-digit : (c : Char) → is_ascii_digit c ≡ true → to_digit 10 c ≡ some (code c - b'0')
unfolding to_digit
to_digit-digit c h = ground arith

-- Texts of digits do not begin with a plus sign.
pub from_str_radix-digits :
    (size radix : ℕ) (c : Char) (s : String)
    → (is_ascii_digit c || is_ascii_hexdigit c) ≡ true
    → from_str_radix size radix (String.◌∷◌ c s) ≡ read_digits size radix 0 (String.◌∷◌ c s)
unfolding from_str_radix
from_str_radix-digits size radix c String.[] h = refl
from_str_radix-digits size radix c (String.◌∷◌ d s) h = ground arith

-- One or two hexadecimal digits are a byte.
pub byte_of_one :
    (c : Char)
    → is_ascii_hexdigit c ≡ true
    → (b : ℕ) × (from_str_radix 256 16 (String.◌∷◌ c String.[]) ≡ ok b)
unfolding from_str_radix read_digits
byte_of_one c h = let (d, digit, small) = to_digit-hexdigit c h in (d, ground (arith, digit))

pub byte_of_two :
    (c d : Char)
    → is_ascii_hexdigit c ≡ true
    → is_ascii_hexdigit d ≡ true
    → (b : ℕ) × (from_str_radix 256 16 (String.◌∷◌ c (String.◌∷◌ d String.[])) ≡ ok b)
unfolding from_str_radix read_digits
byte_of_two c d h h' =
    let (m, high, m_small) = to_digit-hexdigit c h in
    let (n, low, n_small) = to_digit-hexdigit d h' in (m * 16 + n, ground (arith, high, low))

-- What is read fits the type.
pub from_str_radix-lt :
    (size radix : ℕ) (s : String) {n : ℕ}
    → 0 < size
    → 0 < radix
    → from_str_radix size radix s ≡ ok n
    → n < size
unfolding from_str_radix
from_str_radix-lt size radix String.[] {n} positive h e = absurd (cc)
from_str_radix-lt size radix (String.◌∷◌ c String.[]) {n} positive h e =
    ((read_digits_iff size radix 0 (String.◌∷◌ c String.[]) n h positive).0 e).1
from_str_radix-lt size radix (String.◌∷◌ c (String.◌∷◌ d s)) {n} positive h e = ground (
  arith,
  read_digits_iff size radix 0 (String.◌∷◌ d s) n h positive,
  read_digits_iff size radix 0 (String.◌∷◌ c (String.◌∷◌ d s)) n h positive,
)
