-- ===== src/Difftest/SpikeText.antt =====
-- The tokens of a line of the Spike log: `Token` and `tokenize_spike_log_line` of
-- simulator/src/difftest/spike.rs.
pub mod Printed
pub mod RoundTrip
use Prim.Native.Char.{Char, code}
use pokedex.Prelude.{
  ℕ, Bool, true, false, not, ◌&&◌, Option, none, some, List, [], ◌∷◌, String, str_eq, ◌==◌,
  if◌then◌else◌, Outcome, ok, panic, ◌>>=◌, ◌≡◌, refl,
}
use pokedex.Util.Text.{
  is_ascii, is_ascii_digit, is_ascii_hexdigit, all_chars, is_empty, strip_char, strip_last,
  contains, split_at, split_whitespace, is_whitespace,
}

pub data Token : Type 0 where
  core_literal mem_literal : Token
  core_id number_literal instruction hexadecimal xreg freg vreg sew lmul vl csr : String → Token
  unknown : String → Token

unfoldable pub is_digit : String → Bool
is_digit s = not (is_empty s) && all_chars is_ascii_digit s

-- `strip_prefix("0x")`
abbrev pub strip_0x : String → Option String
strip_0x s = elim (strip_char b'0' s) [ none ↦ none | some r ↦ strip_char b'x' r ]

-- `is_hex(s)`, with the text `&s[2..]` where it holds
unfoldable pub hex_digits : String → Option String
hex_digits s = elim (strip_0x s) [
  | none ↦ none
  | some r ↦ if not (is_empty r) && all_chars is_ascii_hexdigit r then some r else none
]

-- The arm for a text that ends with a colon.
unfoldable pub core_id_token : String → Token
core_id_token raw = elim (strip_last b':' raw) [
  | none ↦ unknown raw
  | some id ↦ if is_digit id then core_id id else unknown raw
]

-- The text inside the parentheses of one that begins with `(0x` and ends with `)`.
abbrev pub strip_paren : String → Option String
strip_paren raw = elim (strip_char b'(' raw) [
  | none ↦ none
  | some t ↦ elim (strip_0x t) [ none ↦ none | some _ ↦ strip_last b')' t ]
]

abbrev pub ends_with : ℕ → String → Bool
ends_with b s = elim (strip_last b s) [ none ↦ false | some _ ↦ true ]

-- `tok.len() > 1`, in bytes
abbrev pub is_longer : String → Bool
is_longer String.[] = false
is_longer (String.◌∷◌ c String.[]) = not (is_ascii c)
is_longer (String.◌∷◌ c (String.◌∷◌ d s)) = true

-- The arms on the first letter. `&tok[0..1]` panics inside a character.
unfoldable pub register_token {ℓ} : {E : Type ℓ} → String → Outcome E Token
register_token String.[] = ok (unknown String.[])
register_token (String.◌∷◌ c s) =
    let raw = String.◌∷◌ c s in
    if not (is_ascii c)
    then panic
    else if code c == b'x' && is_digit s
    then ok (xreg s)
    else if code c == b'f' && is_digit s
    then ok (freg s)
    else if code c == b'v' && is_digit s
    then ok (vreg s)
    else if code c == b'e' && is_digit s
    then ok (sew s)
    else if code c == b'l' && is_digit s
    then ok (vl s)
    else if code c == b'm'
    then ok (lmul raw)
    else if code c == b'c' && contains b'_' raw && all_chars is_ascii_digit (split_at b'_' s).0
    then ok (csr raw)
    else ok (unknown raw)

unfoldable pub other_token {ℓ} : {E : Type ℓ} → String → Outcome E Token
unfolding is_digit register_token
other_token raw =
    if is_digit raw
    then ok (number_literal raw)
    else if is_longer raw
    then register_token raw
    else ok (unknown raw)

unfoldable pub str_to_token {ℓ} : {E : Type ℓ} → String → Outcome E Token
unfolding hex_digits core_id_token other_token
str_to_token raw =
    if str_eq raw "core"
    then ok core_literal
    else if str_eq raw "mem"
    then ok mem_literal
    else if ends_with b':' raw
    then ok (core_id_token raw)
    else elim (strip_paren raw) [
      | some inside ↦
          ok (elim (hex_digits inside) [ none ↦ unknown raw | some digits ↦ instruction digits ])
      | none ↦ elim (hex_digits raw) [
        | some digits ↦ ok (hexadecimal digits)
        | none ↦ other_token raw
      ]
    ]

unfoldable pub tokens_of_words {ℓ} : {E : Type ℓ} → List String → Outcome E (List Token)
tokens_of_words [] = ok []
tokens_of_words (w ∷ ws) = do t ← str_to_token w; ts ← tokens_of_words ws; ok (t ∷ ts)

unfoldable pub tokenize_spike_log_line {ℓ} : {E : Type ℓ} → String → Outcome E (List Token)
unfolding tokens_of_words split_whitespace
tokenize_spike_log_line line = tokens_of_words (split_whitespace line)
