-- ===== src/Difftest/SpikeText/RoundTrip.antt =====
-- A line of printed tokens is read as those tokens.
use Prim.Native.Char.{Char}
use pokedex.Prelude.{◌≡◌, refl, true, false, List, [], ◌∷◌, String, arith, All, ok, map}
use pokedex.Util.Text.{all_chars, is_empty, is_ascii_hexdigit, is_whitespace}
use pokedex.Util.Text.Words.{IsWord}
use pokedex.Util.Text.Join.{append, is_black, unwords, all_chars-append, split_whitespace-unwords}
use pokedex.Difftest.SpikeText.{
  Token, core_literal, mem_literal, core_id, number_literal, instruction, hexadecimal, xreg, freg,
  vreg, sew, lmul, vl, csr, unknown, is_digit, tokens_of_words, tokenize_spike_log_line,
}
use pokedex.Difftest.SpikeText.Printed.{
  token_text, IsPrinted, lmul_text, csr_text, str_to_token-text, all_chars_imp, digits_are_hex,
  is_digit-chars, lmul_short, lmul_parts,
}

hex-black : (s : String) → all_chars is_ascii_hexdigit s ≡ true → all_chars is_black s ≡ true
unfolding is_whitespace
hex-black = all_chars_imp is_ascii_hexdigit is_black λ c e. ground arith

digit-black : (s : String) → is_digit s ≡ true → all_chars is_black s ≡ true
digit-black s h = hex-black s (digits_are_hex s (is_digit-chars s h))

append-letters : (s : String) (c : Char) → is_empty (append s (String.◌∷◌ c String.[])) ≡ false
append-letters String.[] c = refl
append-letters (String.◌∷◌ d s) c = refl

lmul-IsWord : (s : String) → lmul_text s ≡ true → IsWord is_black s
unfolding is_whitespace
lmul-IsWord String.[] h = absurd (cc)
lmul-IsWord (String.◌∷◌ c String.[]) h = absurd (lmul_short c h)
lmul-IsWord (String.◌∷◌ c (String.◌∷◌ d s)) h =
    let (m, hex, _) = lmul_parts c d s h in
    let black = hex-black (String.◌∷◌ d s) hex in (ground arith, refl)

csr-IsWord : (s : String) → csr_text s ≡ true → IsWord is_black s
csr-IsWord String.[] h = absurd (cc)
csr-IsWord (String.◌∷◌ c s) h = (ground arith, refl)

number-IsWord : (s : String) → is_digit s ≡ true → IsWord is_black s
unfolding is_digit
number-IsWord String.[] h = absurd (cc)
number-IsWord (String.◌∷◌ c s) h = (digit-black (String.◌∷◌ c s) h, refl)

token_text-IsWord : (t : Token) → IsPrinted t → IsWord is_black (token_text t)
unfolding is_whitespace
token_text-IsWord core_literal h = (refl, refl)
token_text-IsWord mem_literal h = (refl, refl)
token_text-IsWord (core_id s) h =
    (all_chars-append is_black s ":" (digit-black s h) refl, append-letters s ":")
token_text-IsWord (number_literal s) h = number-IsWord s h
token_text-IsWord (instruction s) h =
    (all_chars-append is_black s ")" (hex-black s (ground arith)) refl, refl)
token_text-IsWord (hexadecimal s) h = (hex-black s (ground arith), refl)
token_text-IsWord (xreg s) h = (digit-black s h, refl)
token_text-IsWord (freg s) h = (digit-black s h, refl)
token_text-IsWord (vreg s) h = (digit-black s h, refl)
token_text-IsWord (sew s) h = (digit-black s h, refl)
token_text-IsWord (vl s) h = (digit-black s h, refl)
token_text-IsWord (lmul s) h = lmul-IsWord s h
token_text-IsWord (csr s) h = csr-IsWord s h
token_text-IsWord (unknown s) h = elim h [ ]

pub words-IsWord : (ts : List Token) → All IsPrinted ts → All (IsWord is_black) (map token_text ts)
words-IsWord [] h = tt
words-IsWord (t ∷ ts) (h, hs) = (token_text-IsWord t h, words-IsWord ts hs)

module _ (E : Type 0) where
  pub tokens_of_words-texts :
      (ts : List Token) → All IsPrinted ts → tokens_of_words {E = E} (map token_text ts) ≡ ok ts
  unfolding tokens_of_words
  tokens_of_words-texts [] h = refl
  tokens_of_words-texts (t ∷ ts) (h, hs) =
      rw (str_to_token-text E t h) (rw (tokens_of_words-texts ts hs) refl)

  -- The tokenizer reads the texts of printed tokens, joined by blanks, as those tokens.
  pub tokenize-unwords :
      (ts : List Token)
      → All IsPrinted ts
      → tokenize_spike_log_line {E = E} (unwords (map token_text ts)) ≡ ok ts
  unfolding tokenize_spike_log_line
  tokenize-unwords ts h =
      rw (split_whitespace-unwords (map token_text ts) (words-IsWord ts h))
        (tokens_of_words-texts ts h)
