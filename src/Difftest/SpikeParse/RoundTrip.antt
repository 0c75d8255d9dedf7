-- ===== src/Difftest/SpikeParse/RoundTrip.antt =====
-- The tokens of a printed commit are well-formed, and its text is one line.
use Prim.Native.Char.{Char}
use pokedex.Prelude.{
  ℕ, ◌≡◌, refl, Bool, true, false, none, List, [], ◌∷◌, ◌++◌, String, arith, All, ok, map, inr,
}
use pokedex.Util.Text.{all_chars, is_ascii_digit, is_whitespace, contains, strip_last}
use pokedex.Util.Text.Join.{append, is_black, is_text, unwords-text, all_chars-append}
use pokedex.Util.Text.Print.{decimal, decimal_text, hex_text}
use pokedex.Difftest.SpikeText.{Token, unknown, is_digit}
use pokedex.Difftest.SpikeText.Printed.{token_text, IsPrinted, csr_text, lmul_text, all_chars_imp}
use pokedex.Difftest.SpikeText.RoundTrip.{words-IsWord}
use pokedex.Difftest.SpikeLog.{
  Modification, write_xreg, write_freg, write_csr_reg, write_vec_ctx, write_vreg_bytes, load, store,
  Commit,
}
use pokedex.Difftest.SpikeParse.{check_known}
use pokedex.Difftest.SpikeParse.Printer.{
  csr_name, lmul_name, tokens_of_change, tokens_of_changes, tokens_of_commit, print_commit,
  IsSmallChange, IsSmall, split_at-append, hex_bytes-chars, hex_bytes-letters, strip_char-digits,
}

is_digit-decimal : (n : ℕ) → is_digit (decimal n) ≡ true
unfolding is_digit
is_digit-decimal = decimal_text

strip_last-append-none :
    (b : ℕ) (s : String) (c : Char) (t : String)
    → strip_last b (String.◌∷◌ c t) ≡ none
    → strip_last b (append s (String.◌∷◌ c t)) ≡ none
strip_last-append-none b String.[] c t h = h
strip_last-append-none b (String.◌∷◌ d String.[]) c t h = ground arith
strip_last-append-none b (String.◌∷◌ d (String.◌∷◌ e s)) c t h =
    ground (arith, strip_last-append-none b (String.◌∷◌ e s) c t)

contains-append : (b : ℕ) (s t : String) → contains b t ≡ true → contains b (append s t) ≡ true
contains-append b String.[] t h = h
contains-append b (String.◌∷◌ c s) t h = ground (arith, contains-append b s t)

strip_last-bar :
    (name : String) → strip_last b':' name ≡ none → strip_last b':' (String.◌∷◌ "_" name) ≡ none
strip_last-bar String.[] h = refl
strip_last-bar (String.◌∷◌ c s) h = ground arith

digits-black : (s : String) → all_chars is_ascii_digit s ≡ true → all_chars is_black s ≡ true
unfolding is_whitespace
digits-black = all_chars_imp is_ascii_digit is_black λ c e. ground arith

csr_text-csr_name :
    (rd : ℕ) (name : String)
    → all_chars is_black name ≡ true
    → strip_last b':' name ≡ none
    → csr_text (csr_name rd name) ≡ true
unfolding csr_name is_whitespace
csr_text-csr_name rd name black colon =
    let number : all_chars is_ascii_digit (decimal rd) ≡ true = ground (arith, decimal_text rd) in
    let parts = split_at-append (decimal rd) name number in
    let bar = contains-append b'_' (decimal rd) (String.◌∷◌ "_" name) refl in
    let letters =
      all_chars-append is_black (decimal rd) (String.◌∷◌ "_" name)
        (digits-black (decimal rd) number) black in
    let last =
      strip_last-append-none b':' (String.◌∷◌ "c" (decimal rd)) "_" name
        (strip_last-bar name colon) in
    rw (bar, parts, number, letters, last) refl

lmul_text-lmul_name : (is_flmul : Bool) (n : ℕ) → lmul_text (lmul_name is_flmul n) ≡ true
unfolding lmul_name
lmul_text-lmul_name false n =
    let plain = strip_char-digits (decimal n) (ground (arith, decimal_text n)) in
    ground (arith, plain, is_digit-decimal n)
lmul_text-lmul_name true n = is_digit-decimal n

change-IsPrinted :
    (w : Modification) (ts : List Token)
    → IsSmallChange w
    → All IsPrinted ts
    → All IsPrinted (tokens_of_change w ++ ts)
unfolding tokens_of_change
change-IsPrinted (write_xreg rd bits) ts _ rest =
    (is_digit-decimal rd, (hex_text 16 bits (omega arith), rest))
change-IsPrinted (write_freg rd bits) ts _ rest =
    (is_digit-decimal rd, (hex_text 16 bits (omega arith), rest))
change-IsPrinted (write_csr_reg rd name bits) ts (_, _, black, colon) rest =
    (csr_text-csr_name rd name black colon, (hex_text 16 bits (omega arith), rest))
change-IsPrinted (write_vec_ctx width n is_flmul elements) ts _ rest =
    (is_digit-decimal width, (lmul_text-lmul_name is_flmul n, (is_digit-decimal elements, rest)))
change-IsPrinted (write_vreg_bytes idx bytes) ts (_, some_bytes, _, _) rest = (
  is_digit-decimal idx,
  (
    ground (arith, hex_bytes-letters bytes "" (inr some_bytes), hex_bytes-chars bytes "" refl),
    rest,
  ),
)
change-IsPrinted (load addr) ts _ rest = (tt, (hex_text 16 addr (omega arith), rest))
change-IsPrinted (store addr bits) ts _ rest =
    (tt, (hex_text 16 addr (omega arith), (hex_text 16 bits (omega arith), rest)))

changes-IsPrinted :
    (ws : List Modification) → All IsSmallChange ws → All IsPrinted (tokens_of_changes ws)
unfolding tokens_of_changes
changes-IsPrinted [] h = tt
changes-IsPrinted (w ∷ ws) (h, hs) =
    change-IsPrinted w (tokens_of_changes ws) h (changes-IsPrinted ws hs)

pub tokens_of_commit-IsPrinted : (c : Commit) → IsSmall c → All IsPrinted (tokens_of_commit c)
unfolding tokens_of_commit
tokens_of_commit-IsPrinted c h =
    let changes = changes-IsPrinted c.state_changes h.changes in
    (
      tt,
      (
        is_digit-decimal c.core_id,
        (
          is_digit-decimal c.privilege,
          (hex_text 16 c.pc (omega arith), (hex_text 8 c.instruction (omega arith), changes)),
        ),
      ),
    )

pub check_known-IsPrinted :
    (line : ℕ) (ts : List Token) → All IsPrinted ts → check_known line ts ≡ ok tt
unfolding check_known
check_known-IsPrinted line [] h = refl
check_known-IsPrinted line (unknown s ∷ ts) (h, _) = elim h [ ]
check_known-IsPrinted line (t ∷ ts) (_, hs) = check_known-IsPrinted line ts hs

pub lines_text :
    (cs : List Commit)
    → All IsSmall cs
    → All (λ l. all_chars is_text l ≡ true) (map print_commit cs)
unfolding print_commit
lines_text [] h = tt
lines_text (c ∷ cs) (h, hs) =
    let words = words-IsWord (tokens_of_commit c) (tokens_of_commit-IsPrinted c h) in
    (unwords-text (map token_text (tokens_of_commit c)) words, lines_text cs hs)
