-- ===== src/Difftest/SpikeParse/Lexed.antt =====
-- A log of ASCII characters is read without a panic.
use pokedex.Prelude.{
  ℕ, ◌+◌, ◌≡◌, refl, ◌==◌, true, false, some, List, [], ◌∷◌, String, Outcome, ok, err, panic,
  or_panic, ◌>>=◌, arith, All, Bool-cases, Option-cases, Outcome-cases, inl, inr, ◌≢◌,
}
use Prim.Native.Char.{Char, code}
use pokedex.Util.Text.{
  is_ascii, is_ascii_hexdigit, all_chars, is_empty, slice_1, from_str_radix, split_whitespace,
  IntErrorKind, lines,
}
use pokedex.Util.Text.Digits.{byte_of_one, byte_of_two}
use pokedex.Util.Text.Words.{IsWord, IsLine, split_whitespace-All, lines-All}
use pokedex.Difftest.SpikeText.{
  Token, hexadecimal, lmul, csr, unknown, hex_digits, strip_0x, register_token, other_token,
  str_to_token, tokens_of_words, tokenize_spike_log_line,
}
use pokedex.Difftest.SpikeParse.{
  ParseError, unexpected_token, invalid_value, out_of_fuel, reversed_bytes, u8_size, LogError,
  unknown_token, bad_line, check_known, on_line, commit_of_line, commits_from, backend_from_log,
  parse_single_commit,
}
use pokedex.Difftest.SpikeParse.Settled.{Within, Fine, Within->>=, parse_single_commit-Fine}

-- The result is a token whose text the parser can read.
ok-Within : {A : Type 0} (o : Outcome IntErrorKind A) {a : A} → o ≡ ok a → Within ⊥ (or_panic o)
ok-Within o e = rw e tt

reversed_bytes-Within :
    (s : String) → all_chars is_ascii_hexdigit s ≡ true → Within ⊥ (reversed_bytes s)
unfolding reversed_bytes
reversed_bytes-Within String.[] h = tt
reversed_bytes-Within (String.◌∷◌ c String.[]) h =
    Within->>= ⊥ (or_panic (from_str_radix u8_size 16 (String.◌∷◌ c String.[]))) _
      (ok-Within _ (byte_of_one c (ground arith)).1) λ _ _. tt
reversed_bytes-Within (String.◌∷◌ c (String.◌∷◌ d s)) h =
    Within->>= ⊥ (reversed_bytes s) _ (reversed_bytes-Within s (ground arith)) λ _ _.
      Within->>= ⊥ (or_panic (from_str_radix u8_size 16 (String.◌∷◌ c (String.◌∷◌ d String.[])))) _
        (ok-Within _ (byte_of_two c d (ground arith) (ground arith)).1) λ _ _. tt

slice_1-ascii :
    (s : String) → is_empty s ≡ false → all_chars is_ascii s ≡ true → Within ⊥ (slice_1 s)
slice_1-ascii String.[] n h = absurd (cc)
slice_1-ascii (String.◌∷◌ c s) n h = elim (Bool-cases (is_ascii c)) [
  | inl e ↦ rw (e, slice_1) tt
  | inr e ↦ absurd (ground arith)
]

csr-Fine : (c : Char) (s : String) → (code c == b'c') ≡ true → Fine ⊥ (csr (String.◌∷◌ c s))
csr-Fine c s e =
    let not_bar : (code c == b'_') ≡ false = ground arith in
    let ascii : is_ascii c ≡ true = ground arith in rw (not_bar, ascii) tt

lmul-Fine :
    (raw s : String)
    → all_chars is_ascii raw ≡ true
    → is_empty raw ≡ false
    → raw ≡ s
    → Fine ⊥ (lmul s)
lmul-Fine raw s h n e = rw (← e) (slice_1-ascii raw n h)

module _ (c : Char) (s : String) (h : all_chars is_ascii (String.◌∷◌ c s) ≡ true) where
  register_token-Fine :
      (t : Token) → register_token {E = LogError} (String.◌∷◌ c s) ≡ ok t → Fine ⊥ t
  unfolding register_token
  register_token-Fine (csr r) e =
      let first : (code c == b'c') ≡ true = ground arith in
      let same : String.◌∷◌ c s ≡ r = ground arith in rw (← same) (csr-Fine c s first)
  register_token-Fine (lmul r) e = lmul-Fine (String.◌∷◌ c s) r h refl (ground arith)
  register_token-Fine (hexadecimal r) e = absurd (ground arith)
  register_token-Fine _ e = tt

  register_token-ne-panic : register_token {E = LogError} (String.◌∷◌ c s) ≢ panic
  unfolding register_token
  register_token-ne-panic e = ground arith

  register_token-ne-err : (why : LogError) → register_token (String.◌∷◌ c s) ≢ err why
  unfolding register_token
  register_token-ne-err why e = ground arith

  other_token-Fine : (t : Token) → other_token {E = LogError} (String.◌∷◌ c s) ≡ ok t → Fine ⊥ t
  unfolding other_token
  other_token-Fine (csr r) e = register_token-Fine (csr r) (ground arith)
  other_token-Fine (lmul r) e = register_token-Fine (lmul r) (ground arith)
  other_token-Fine (hexadecimal r) e = register_token-Fine (hexadecimal r) (ground arith)
  other_token-Fine _ e = tt

  register_token-ne-hexadecimal :
      (r : String) → register_token {E = LogError} (String.◌∷◌ c s) ≢ ok (hexadecimal r)
  unfolding register_token
  register_token-ne-hexadecimal r e = ground arith

  other_token-ne-hexadecimal :
      (r : String) → other_token {E = LogError} (String.◌∷◌ c s) ≢ ok (hexadecimal r)
  unfolding other_token
  other_token-ne-hexadecimal r e = ground (arith, register_token-ne-hexadecimal r)

  other_token-ne-panic : other_token {E = LogError} (String.◌∷◌ c s) ≢ panic
  unfolding other_token
  other_token-ne-panic e = ground (arith, register_token-ne-panic)

  other_token-ne-err : (why : LogError) → other_token (String.◌∷◌ c s) ≢ err why
  unfolding other_token
  other_token-ne-err why e = ground (arith, register_token-ne-err why)

hex_digits-hex :
    (s : String) {digits : String}
    → hex_digits s ≡ some digits
    → all_chars is_ascii_hexdigit digits ≡ true
unfolding hex_digits
hex_digits-hex s {digits} e = elim (Option-cases (strip_0x s)) [
  | inl plain ↦ absurd (ground arith)
  | inr (r, stripped) ↦ ground arith
]

module _ (c : Char) (s : String) (h : all_chars is_ascii (String.◌∷◌ c s) ≡ true) where
  str_to_token-Fine : (t : Token) → str_to_token {E = LogError} (String.◌∷◌ c s) ≡ ok t → Fine ⊥ t
  unfolding str_to_token
  str_to_token-Fine (csr r) e = other_token-Fine c s h (csr r) (ground arith)
  str_to_token-Fine (lmul r) e = other_token-Fine c s h (lmul r) (ground arith)
  str_to_token-Fine (hexadecimal r) e =
      let found : hex_digits (String.◌∷◌ c s) ≡ some r =
        ground (arith, other_token-ne-hexadecimal c s h r) in
      reversed_bytes-Within r (hex_digits-hex (String.◌∷◌ c s) found)
  str_to_token-Fine _ e = tt

  str_to_token-ne-panic : str_to_token {E = LogError} (String.◌∷◌ c s) ≢ panic
  unfolding str_to_token
  str_to_token-ne-panic e = ground (arith, other_token-ne-panic c s h)

  str_to_token-ne-err : (why : LogError) → str_to_token (String.◌∷◌ c s) ≢ err why
  unfolding str_to_token
  str_to_token-ne-err why e = ground (arith, other_token-ne-err c s h why)

str_to_token-total :
    (w : String)
    → IsWord is_ascii w
    → (t : Token) × (str_to_token {E = LogError} w ≡ ok t) × Fine ⊥ t
str_to_token-total String.[] (h, n) = absurd (cc)
str_to_token-total (String.◌∷◌ c s) (h, n) =
    elim (Outcome-cases (str_to_token {E = LogError} (String.◌∷◌ c s))) [
      | inl (t, e) ↦ (t, e, str_to_token-Fine c s h t e)
      | inr (inl (why, e)) ↦ absurd (str_to_token-ne-err c s h why e)
      | inr (inr e) ↦ absurd (str_to_token-ne-panic c s h e)
    ]

-- The words are tokens that the parser can read.
tokens_of_words-Fine :
    (ws : List String)
    → All (IsWord is_ascii) ws
    → (ts : List Token) × (tokens_of_words {E = LogError} ws ≡ ok ts) × All (Fine ⊥) ts
unfolding tokens_of_words
tokens_of_words-Fine [] h = ([], refl, tt)
tokens_of_words-Fine (w ∷ ws) (h, hs) =
    let (t, first, fine) = str_to_token-total w h in
    let (ts, rest, all) = tokens_of_words-Fine ws hs in (t ∷ ts, rw first (rw rest), (fine, all))

-- The result is a value, or an error of the program.
abbrev pub Settles : {A : Type 0} → Outcome LogError A → Type 0
Settles (ok a) = Unit
Settles (err (unknown_token _ _)) = Unit
Settles (err (bad_line _ e)) = Within ⊥ {A = ℕ} (err e)
Settles panic = ⊥

Settles->>= :
    {A B : Type 0} (m : Outcome LogError A) (f : A → Outcome LogError B)
    → Settles m
    → ((a : A) → Settles (f a))
    → Settles (m >>= f)
Settles->>= (ok a) f h k = k a
Settles->>= (err (unknown_token _ _)) f h k = tt
Settles->>= (err (bad_line _ e)) f h k = h
Settles->>= panic f h k = h

on_line-Settles :
    {A : Type 0} (line : ℕ) (m : Outcome ParseError A) → Within ⊥ m → Settles (on_line line m)
on_line-Settles line (ok a) h = tt
on_line-Settles line (err (unexpected_token _ _ _)) h = tt
on_line-Settles line (err (invalid_value _ _ _ _)) h = tt
on_line-Settles line (err out_of_fuel) h = h
on_line-Settles line panic h = h

check_known-Settles : (line : ℕ) (ts : List Token) → Settles (check_known line ts)
unfolding check_known
check_known-Settles line [] = tt
check_known-Settles line (unknown r ∷ ts) = tt
check_known-Settles line (t ∷ ts) = check_known-Settles line ts

commit_of_line-Settles :
    (line : ℕ) (s : String) → all_chars is_ascii s ≡ true → Settles (commit_of_line line s)
unfolding commit_of_line tokenize_spike_log_line
commit_of_line-Settles line s h =
    let (ts, tokens, fine) =
      tokens_of_words-Fine (split_whitespace s) (split_whitespace-All is_ascii s h) in
    rw tokens (
      Settles->>= (check_known line ts) _ (check_known-Settles line ts)
        λ _. on_line-Settles line (parse_single_commit ts) (parse_single_commit-Fine ⊥ ts fine))

commits_from-Settles :
    (line : ℕ) (ls : List String) → All (IsLine is_ascii) ls → Settles (commits_from line ls)
unfolding commits_from
commits_from-Settles line [] h = tt
commits_from-Settles line (s ∷ ls) (h, hs) =
    Settles->>= (commit_of_line line s) _ (commit_of_line-Settles line s h) λ _.
      Settles->>= (commits_from (line + 1) ls) _ (commits_from-Settles (line + 1) ls hs) λ _. tt

-- A log of ASCII characters is read without a panic: the result is a backend, or the error of a
-- token or of a line, and never the one that stands for fuel run out.
pub backend_from_log-Settles :
    (raw : String) → all_chars is_ascii raw ≡ true → Settles (backend_from_log raw)
unfolding backend_from_log
backend_from_log-Settles raw h =
    Settles->>= (commits_from 0 (lines raw)) _
      (commits_from-Settles 0 (lines raw) (lines-All is_ascii raw h)) λ _. tt
