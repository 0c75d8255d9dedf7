-- ===== src/Difftest/SpikeText/Printed.antt =====
-- A token's text is read as that token.
use Prim.Native.Char.{Char, code}
use text.Mathlib.TextLemmas.{head-eq_of_cons-eq, tail-eq_of_cons-eq}
use pokedex.Prelude.{
  ◌≡◌, ◌≢◌, refl, Bool, true, false, not, ◌&&◌, none, some, String, str_eq, eq_iff, ◌==◌, arith,
  Bool-cases, inl, inr, ap, ok, ◌∙◌, ◌≤◌,
}
use pokedex.Util.Text.{
  all_chars, is_empty, is_ascii_digit, is_ascii_hexdigit, strip_char, strip_last, strip_mf,
  contains, split_at,
}
use pokedex.Util.Text.Join.{append, is_black, strip_last-append, strip_last-ne, all_chars-append}
use pokedex.Difftest.SpikeText.{
  Token, core_literal, mem_literal, core_id, number_literal, instruction, hexadecimal, xreg, freg,
  vreg, sew, lmul, vl, csr, unknown, is_digit, hex_digits, register_token, str_to_token,
}

-- The text of a token.
abbrev pub token_text : Token → String
token_text core_literal = "core"
token_text mem_literal = "mem"
token_text (core_id s) = append s ":"
token_text (number_literal s) = s
token_text (instruction s) = String.◌∷◌ "(" (String.◌∷◌ "0" (String.◌∷◌ "x" (append s ")")))
token_text (hexadecimal s) = String.◌∷◌ "0" (String.◌∷◌ "x" s)
token_text (xreg s) = String.◌∷◌ "x" s
token_text (freg s) = String.◌∷◌ "f" s
token_text (vreg s) = String.◌∷◌ "v" s
token_text (sew s) = String.◌∷◌ "e" s
token_text (vl s) = String.◌∷◌ "l" s
token_text (lmul s) = s
token_text (csr s) = s
token_text (unknown s) = s

abbrev pub hex_text : String → Bool
hex_text s = not (is_empty s) && all_chars is_ascii_hexdigit s

-- `m` or `mf`, and a number
abbrev pub lmul_text : String → Bool
lmul_text s = elim (strip_mf s) [
  | some digits ↦ is_digit digits
  | none ↦ elim (strip_char b'm' s) [ some digits ↦ is_digit digits | none ↦ false ]
]

-- `c`, a number, a bar and a name, with no blank in it and no colon behind it
abbrev pub csr_text : String → Bool
csr_text s = elim (strip_char b'c' s) [
  | none ↦ false
  | some r ↦
      contains b'_' r
      && all_chars is_ascii_digit (split_at b'_' r).0
      && all_chars is_black s
      && elim (strip_last b':' s) [ none ↦ true | some _ ↦ false ]
]

-- The text is one that is read as that token.
abbrev pub IsPrinted : Token → Type 0
IsPrinted core_literal = Unit
IsPrinted mem_literal = Unit
IsPrinted (instruction s) = hex_text s ≡ true
IsPrinted (hexadecimal s) = hex_text s ≡ true
IsPrinted (lmul s) = lmul_text s ≡ true
IsPrinted (csr s) = csr_text s ≡ true
IsPrinted (unknown s) = ⊥
IsPrinted (core_id s) = is_digit s ≡ true
IsPrinted (number_literal s) = is_digit s ≡ true
IsPrinted (xreg s) = is_digit s ≡ true
IsPrinted (freg s) = is_digit s ≡ true
IsPrinted (vreg s) = is_digit s ≡ true
IsPrinted (sew s) = is_digit s ≡ true
IsPrinted (vl s) = is_digit s ≡ true

str_eq-ne : (s t : String) → s ≢ t → str_eq s t ≡ false
str_eq-ne s t h = elim (Bool-cases (str_eq s t)) [
  | inl e ↦ absurd (h ((eq_iff s t).0 e))
  | inr e ↦ e
]

pub first_ne :
    (c d : Char) (s t : String) → code c ≢ code d → str_eq (String.◌∷◌ c s) (String.◌∷◌ d t) ≡ false
first_ne c d s t h = str_eq-ne _ _ λ e. h (ap code (head-eq_of_cons-eq e))

second_ne :
    (c c' d d' : Char) (s t : String)
    → code c ≢ code d
    → str_eq (String.◌∷◌ c' (String.◌∷◌ c s)) (String.◌∷◌ d' (String.◌∷◌ d t)) ≡ false
second_ne c c' d d' s t h =
    str_eq-ne _ _ λ e. h (ap code (head-eq_of_cons-eq (tail-eq_of_cons-eq e)))

pub all_chars_imp :
    (p q : Char → Bool)
    → ((c : Char) → p c ≡ true → q c ≡ true)
    → (s : String) → all_chars p s ≡ true
    → all_chars q s ≡ true
all_chars_imp p q imp String.[] h = refl
all_chars_imp p q imp (String.◌∷◌ c s) h = ground (arith, imp c, all_chars_imp p q imp s)

hex_no_colon :
    (s : String)
    → all_chars is_ascii_hexdigit s ≡ true
    → all_chars (λ c. not (code c == b':')) s ≡ true
hex_no_colon = all_chars_imp is_ascii_hexdigit (λ c. not (code c == b':')) λ c e. ground arith

no_colon : (s : String) → all_chars is_ascii_hexdigit s ≡ true → strip_last b':' s ≡ none
no_colon s h = strip_last-ne b':' s (hex_no_colon s h)

pub digits_are_hex :
    (s : String) → all_chars is_ascii_digit s ≡ true → all_chars is_ascii_hexdigit s ≡ true
digits_are_hex = all_chars_imp is_ascii_digit is_ascii_hexdigit λ c e. ground arith

pub is_digit-chars : (s : String) → is_digit s ≡ true → all_chars is_ascii_digit s ≡ true
unfolding is_digit
is_digit-chars s h = ground arith

code_of_digit : (c : Char) → is_ascii_digit c ≡ true → (48 ≤ code c) × (code c ≤ 57)
code_of_digit c h = ground arith

hex_digits-number : (s : String) → all_chars is_ascii_digit s ≡ true → hex_digits s ≡ none
unfolding hex_digits
hex_digits-number String.[] h = refl
hex_digits-number (String.◌∷◌ c String.[]) h = ground arith
hex_digits-number (String.◌∷◌ c (String.◌∷◌ d s)) h = ground arith

pub lmul_short : (c : Char) → lmul_text (String.◌∷◌ c String.[]) ≢ true
unfolding is_digit
lmul_short c h = ground arith

pub lmul_parts :
    (c d : Char) (s : String)
    → lmul_text (String.◌∷◌ c (String.◌∷◌ d s)) ≡ true
    → (code c ≡ b'm') × (all_chars is_ascii_hexdigit (String.◌∷◌ d s) ≡ true) × (code d ≢ b'e')
unfolding is_digit
lmul_parts c d s h = ground (arith, digits_are_hex s, digits_are_hex (String.◌∷◌ d s))

csr_short : (c : Char) → csr_text (String.◌∷◌ c String.[]) ≢ true
csr_short c h = ground arith

csr_parts :
    (c d : Char) (s : String)
    → csr_text (String.◌∷◌ c (String.◌∷◌ d s)) ≡ true
    → (code c ≡ b'c')
      × (contains b'_' (String.◌∷◌ d s) ≡ true)
      × (all_chars is_ascii_digit (split_at b'_' (String.◌∷◌ d s)).0 ≡ true)
      × (code d ≢ b'o')
      × (strip_last b':' (String.◌∷◌ c (String.◌∷◌ d s)) ≡ none)
csr_parts c d s h = ground arith

module _ (E : Type 0) where
  -- A word that is neither a literal nor a number is read by its first letter.
  to_register :
      (c d : Char) (s : String)
      → str_eq (String.◌∷◌ c (String.◌∷◌ d s)) "core" ≡ false
      → str_eq (String.◌∷◌ c (String.◌∷◌ d s)) "mem" ≡ false
      → strip_last b':' (String.◌∷◌ c (String.◌∷◌ d s)) ≡ none
      → is_ascii_digit c ≡ false
      → (code c == b'(') ≡ false
      → str_to_token {E = E} (String.◌∷◌ c (String.◌∷◌ d s))
        ≡ register_token (String.◌∷◌ c (String.◌∷◌ d s))
  unfolding str_to_token
  to_register c d s core mem colon digit paren = ground (arith, core, mem, colon, digit, paren)

  -- A letter before a number.
  letter_text :
      (c : Char) (s : String)
      → is_digit s ≡ true
      → code c ≢ b'c'
      → code c ≢ b'm'
      → is_ascii_digit c ≡ false
      → (code c == b'(') ≡ false
      → str_to_token {E = E} (String.◌∷◌ c s) ≡ register_token (String.◌∷◌ c s)
  unfolding is_digit
  letter_text c String.[] h not_c not_m digit paren = absurd (cc)
  letter_text c (String.◌∷◌ d s) h not_c not_m digit paren =
      let colon = no_colon (String.◌∷◌ d s) (digits_are_hex (String.◌∷◌ d s) (ground arith)) in
      to_register c d s (first_ne c "c" (String.◌∷◌ d s) "ore" not_c)
        (first_ne c "m" (String.◌∷◌ d s) "em" not_m) (rw colon refl) digit paren

  -- A number's first digit.
  number_text : (s : String) → is_digit s ≡ true → str_to_token {E = E} s ≡ ok (number_literal s)
  unfolding str_to_token
  number_text String.[] h = absurd (cc)
  number_text (String.◌∷◌ d s) h =
      let digits = is_digit-chars (String.◌∷◌ d s) h in
      let colon = no_colon (String.◌∷◌ d s) (digits_are_hex (String.◌∷◌ d s) digits) in
      let plain = hex_digits-number (String.◌∷◌ d s) digits in
      ground (
        arith,
        first_ne d "c" s "ore" (omega (arith, code_of_digit d (ground arith))),
        first_ne d "m" s "em" (omega (arith, code_of_digit d (ground arith))),
        colon,
        plain,
      )

  hexadecimal_text :
      (s : String)
      → hex_text s ≡ true
      → str_to_token {E = E} (String.◌∷◌ "0" (String.◌∷◌ "x" s)) ≡ ok (hexadecimal s)
  unfolding str_to_token
  hexadecimal_text String.[] h = absurd (cc)
  hexadecimal_text (String.◌∷◌ d s) h =
      let colon = no_colon (String.◌∷◌ d s) (ground arith) in
      ground (
        arith,
        first_ne "0" "c" (String.◌∷◌ "x" (String.◌∷◌ d s)) "ore" (omega arith),
        first_ne "0" "m" (String.◌∷◌ "x" (String.◌∷◌ d s)) "em" (omega arith),
        colon,
      )

  -- Digits and the colon behind them.
  core_id_text :
      (s : String) → is_digit s ≡ true → str_to_token {E = E} (append s ":") ≡ ok (core_id s)
  unfolding str_to_token
  core_id_text String.[] h = absurd (cc)
  core_id_text (String.◌∷◌ d s) h =
      let digits = is_digit-chars (String.◌∷◌ d s) h in
      ground (
        arith,
        first_ne d "c" (append s ":") "ore" (omega (arith, code_of_digit d (ground arith))),
        first_ne d "m" (append s ":") "em" (omega (arith, code_of_digit d (ground arith))),
        strip_last-append b':' (String.◌∷◌ d s) ":" refl,
      )

  instruction_text :
      (s : String)
      → hex_text s ≡ true
      → str_to_token {E = E} (String.◌∷◌ "(" (String.◌∷◌ "0" (String.◌∷◌ "x" (append s ")"))))
        ≡ ok (instruction s)
  unfolding str_to_token
  instruction_text String.[] h = absurd (cc)
  instruction_text (String.◌∷◌ d s) h =
      let colon = strip_last-ne b':' (append (String.◌∷◌ d s) ")") (
        all_chars-append (λ c. not (code c == b':')) (String.◌∷◌ d s) ")"
          (hex_no_colon (String.◌∷◌ d s) (ground arith)) refl) in
      ground (
        arith,
        first_ne "(" "c" (String.◌∷◌ "0" (String.◌∷◌ "x" (append (String.◌∷◌ d s) ")"))) "ore"
            (omega arith),
        first_ne "(" "m" (String.◌∷◌ "0" (String.◌∷◌ "x" (append (String.◌∷◌ d s) ")"))) "em"
            (omega arith),
        colon,
        strip_last-append b')' (String.◌∷◌ d s) ")" refl,
      )

  lmul_token : (s : String) → lmul_text s ≡ true → str_to_token {E = E} s ≡ ok (lmul s)
  unfolding register_token
  lmul_token String.[] h = absurd (cc)
  lmul_token (String.◌∷◌ c String.[]) h = absurd (lmul_short c h)
  lmul_token (String.◌∷◌ c (String.◌∷◌ d s)) h =
      let (m, hex, not_e) = lmul_parts c d s h in
      let colon = no_colon (String.◌∷◌ d s) hex in
      to_register c d s (first_ne c "c" (String.◌∷◌ d s) "ore" (omega arith))
        (second_ne d c "e" "m" s "m" not_e) (rw colon refl) (ground arith) (ground arith)
      ∙ ground arith

  csr_token : (s : String) → csr_text s ≡ true → str_to_token {E = E} s ≡ ok (csr s)
  unfolding register_token
  csr_token String.[] h = absurd (cc)
  csr_token (String.◌∷◌ c String.[]) h = absurd (csr_short c h)
  csr_token (String.◌∷◌ c (String.◌∷◌ d s)) h =
      let (first, bar, digits, second, colon) = csr_parts c d s h in
      to_register c d s (second_ne d c "o" "c" s "re" second)
        (first_ne c "m" (String.◌∷◌ d s) "em" (omega arith)) colon (ground arith) (ground arith)
      ∙ ground arith

  pub str_to_token-text : (t : Token) → IsPrinted t → str_to_token {E = E} (token_text t) ≡ ok t
  unfolding register_token str_to_token
  str_to_token-text core_literal h = refl
  str_to_token-text mem_literal h = refl
  str_to_token-text (core_id s) h = core_id_text s h
  str_to_token-text (number_literal s) h = number_text s h
  str_to_token-text (instruction s) h = instruction_text s h
  str_to_token-text (hexadecimal s) h = hexadecimal_text s h
  str_to_token-text (xreg s) h =
      letter_text "x" s h (omega arith) (omega arith) refl refl ∙ ground arith
  str_to_token-text (freg s) h =
      letter_text "f" s h (omega arith) (omega arith) refl refl ∙ ground arith
  str_to_token-text (vreg s) h =
      letter_text "v" s h (omega arith) (omega arith) refl refl ∙ ground arith
  str_to_token-text (sew s) h =
      letter_text "e" s h (omega arith) (omega arith) refl refl ∙ ground arith
  str_to_token-text (vl s) h =
      letter_text "l" s h (omega arith) (omega arith) refl refl ∙ ground arith
  str_to_token-text (lmul s) h = lmul_token s h
  str_to_token-text (csr s) h = csr_token s h
  str_to_token-text (unknown s) h = elim h [ ]
