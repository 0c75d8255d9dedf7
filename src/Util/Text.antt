-- ===== src/Util/Text.antt =====
-- What the program uses of Rust's texts: lines, words, and integers read from a text.
pub mod Digits
pub mod Words
pub mod Join
pub mod Print
use Prim.Native.Char.{Char, code}
use Prim.Native.String.{◌++◌ as str_append}
use pokedex.Prelude.{
  ℕ, zero, suc, ◌+◌, ◌-◌, ◌*◌, ◌<◌, ◌&&◌, ◌||◌, Bool, true, false, not, Option, none, some, List,
  [], ◌∷◌, String, str_eq, ◌==◌, leb, ltb, if◌then◌else◌, Outcome, ok, err, panic, ◌≡◌, refl,
}

-- Tests on a character
abbrev pub is_ascii : Char → Bool
is_ascii c = ltb (code c) 128

abbrev pub is_ascii_digit : Char → Bool
is_ascii_digit c = leb b'0' (code c) && leb (code c) b'9'

abbrev pub is_ascii_hexdigit : Char → Bool
is_ascii_hexdigit c =
    is_ascii_digit c
    || (leb b'a' (code c) && leb (code c) b'f')
    || (leb b'A' (code c) && leb (code c) b'F')

-- The characters with the property White_Space.
unfoldable pub is_whitespace : Char → Bool
is_whitespace c =
    (leb 9 (code c) && leb (code c) 13)
    || code c == 32
    || code c == 0x85
    || code c == 0xA0
    || code c == 0x1680
    || (leb 0x2000 (code c) && leb (code c) 0x200A)
    || code c == 0x2028
    || code c == 0x2029
    || code c == 0x202F
    || code c == 0x205F
    || code c == 0x3000

-- A text that is written piece by piece.
unfoldable pub concat : List String → String
concat [] = ""
concat (s ∷ ss) = str_append s (concat ss)

-- `s.chars().all(p)`
abbrev pub all_chars : (Char → Bool) → String → Bool
all_chars p String.[] = true
all_chars p (String.◌∷◌ c s) = p c && all_chars p s

-- `s.chars().count()`
abbrev pub count_chars : String → ℕ
count_chars String.[] = 0
count_chars (String.◌∷◌ c s) = suc (count_chars s)

abbrev pub is_empty : String → Bool
is_empty String.[] = true
is_empty (String.◌∷◌ c s) = false

-- `strip_prefix`, where the prefix is one character
abbrev pub strip_char : ℕ → String → Option String
strip_char b String.[] = none
strip_char b (String.◌∷◌ c s) = if code c == b then some s else none

-- `strip_prefix("mf")`
abbrev pub strip_mf : String → Option String
strip_mf s = elim (strip_char b'm' s) [ none ↦ none | some r ↦ strip_char b'f' r ]

-- `strip_suffix`, where the suffix is one character
abbrev pub strip_last : ℕ → String → Option String
strip_last b String.[] = none
strip_last b (String.◌∷◌ c String.[]) = if code c == b then some String.[] else none
strip_last b (String.◌∷◌ c (String.◌∷◌ d s)) = elim (strip_last b (String.◌∷◌ d s)) [
  | none ↦ none
  | some r ↦ some (String.◌∷◌ c r)
]

-- `contains`
abbrev pub contains : ℕ → String → Bool
contains b String.[] = false
contains b (String.◌∷◌ c s) = code c == b || contains b s

-- `&s[1..]`: it panics at the end and inside a character.
abbrev pub slice_1 {ℓ} : {E : Type ℓ} → String → Outcome E String
slice_1 String.[] = panic
slice_1 (String.◌∷◌ c s) = if is_ascii c then ok s else panic

-- `splitn(2, b)`: the part before the first `b`, and the part behind it if there is one
abbrev pub split_at : ℕ → String → String × Option String
split_at b String.[] = (String.[], none)
split_at b (String.◌∷◌ c s) =
    let (first, rest) = split_at b s in
    if code c == b then (String.[], some s) else (String.◌∷◌ c first, rest)

-- `lines`: a line ends at a line feed, or at a carriage return and a line feed.
pub begin_line : Char → List String → List String
begin_line c [] = String.◌∷◌ c String.[] ∷ []
begin_line c (l ∷ ls) = String.◌∷◌ c l ∷ ls

unfoldable pub lines : String → List String
unfolding begin_line
lines String.[] = []
lines (String.◌∷◌ c s) =
    let rest = lines s in
    if code c == 10 then String.[] ∷ rest else elim (strip_char 10 s) [
      | none ↦ begin_line c rest
      | some _ ↦ if code c == 13 then rest else begin_line c rest
    ]

-- `split_whitespace`: the word that begins at the text's start, and the words behind it
abbrev pub add_word : String → List String → List String
add_word String.[] ws = ws
add_word (String.◌∷◌ c s) ws = String.◌∷◌ c s ∷ ws

unfoldable pub first_word : String → String × List String
first_word String.[] = (String.[], [])
first_word (String.◌∷◌ c s) =
    let (w, ws) = first_word s in
    if is_whitespace c then (String.[], add_word w ws) else (String.◌∷◌ c w, ws)

unfoldable pub split_whitespace : String → List String
unfolding first_word
split_whitespace s = let (w, ws) = first_word s in add_word w ws

pub data IntErrorKind : Type 0 where
  empty invalid_digit pos_overflow : IntErrorKind

-- the text of a `ParseIntError`
abbrev pub reason_of : IntErrorKind → String
reason_of empty = "cannot parse integer from empty string"
reason_of invalid_digit = "invalid digit found in string"
reason_of pos_overflow = "number too large to fit in target type"

-- `to_digit`, for a radix up to 16
unfoldable pub to_digit : ℕ → Char → Option ℕ
to_digit radix c =
    let below = λ (d : ℕ). if ltb d radix then some d else none in
    if is_ascii_digit c
    then below (code c - b'0')
    else if leb b'a' (code c) && leb (code c) b'f'
    then below (code c - b'a' + 10)
    else if leb b'A' (code c) && leb (code c) b'F'
    then below (code c - b'A' + 10)
    else none

-- The digits of an unsigned integer of the given size, behind the value so far: at each one the
-- digit is tested before the overflow.
unfoldable pub read_digits : ℕ → ℕ → ℕ → String → Outcome IntErrorKind ℕ
read_digits size radix n String.[] = ok n
read_digits size radix n (String.◌∷◌ c s) = elim (to_digit radix c) [
  | none ↦ err invalid_digit
  | some d ↦
      let rest = read_digits size radix (n * radix + d) s in
      if ltb (n * radix + d) size then rest else err pos_overflow
]

-- `from_str_radix` of an unsigned type with `size` values: a plus sign may stand before the digits.
unfoldable pub from_str_radix : ℕ → ℕ → String → Outcome IntErrorKind ℕ
unfolding read_digits
from_str_radix size radix String.[] = err empty
from_str_radix size radix (String.◌∷◌ c String.[]) =
    read_digits size radix 0 (String.◌∷◌ c String.[])
from_str_radix size radix (String.◌∷◌ c (String.◌∷◌ d s)) =
    if code c == b'+'
    then read_digits size radix 0 (String.◌∷◌ d s)
    else read_digits size radix 0 (String.◌∷◌ c (String.◌∷◌ d s))
