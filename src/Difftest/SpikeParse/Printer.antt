-- ===== src/Difftest/SpikeParse/Printer.antt =====
-- A commit printed in a form of its own, its numbers in 16 or 8 hexadecimal digits and a blank behind
-- each word, and the bounds within which its line is read back.
use Prim.Native.Char.{code}
use mathlib.Core.Path.{subst}
use pokedex.Prelude.{
  ℕ, ◌+◌, ◌*◌, ◌%◌, ◌<◌, ◌≡◌, refl, ap, ◌∙◌, Bool, true, false, none, some, List, [], ◌∷◌, ◌++◌,
  append-nil, append_assoc, String, arith, All, ok, u32_mod, length, map, ◌==◌, ◌⊎◌, inl, inr,
}
use pokedex.Util.Text.{
  all_chars, is_empty, is_ascii_digit, is_ascii_hexdigit, count_chars, split_at, slice_1,
  strip_last, strip_char,
}
use pokedex.Util.Text.Join.{append, is_black, unwords}
use pokedex.Util.Text.Print.{
  digits, decimal, hex, decimal_text, hex_chars, from_str_radix-hex, from_str_radix-decimal,
}
use pokedex.Difftest.SpikeText.{
  Token, core_literal, mem_literal, core_id, number_literal, instruction, hexadecimal, xreg, freg,
  vreg, sew, lmul, vl, csr,
}
use pokedex.Difftest.SpikeText.Printed.{token_text}
use pokedex.Difftest.SpikeLog.{
  Modification, write_xreg, write_freg, write_csr_reg, write_vec_ctx, write_vreg_bytes, load, store,
  Commit,
}
use pokedex.Difftest.SpikeParse.{u8_size, u64_size, reversed_bytes, or_empty, ParseError}
use pokedex.Difftest.SpikeParse.Grammar.{
  Reads, NotHex, Lmul, whole, fraction, Change, of_xreg, of_freg, of_csr, of_load, of_store,
  of_vec_ctx, of_vreg, Changes, no_more, one_more, Line, of_head,
}

-- The bytes as one number, the last one first, before a text.
unfoldable pub hex_bytes : List ℕ → String → String
hex_bytes [] out = out
hex_bytes (b ∷ bs) out = hex_bytes bs (digits 16 2 b out)

unfoldable pub csr_name : ℕ → String → String
csr_name rd name = String.◌∷◌ "c" (append (decimal rd) (String.◌∷◌ "_" name))

unfoldable pub lmul_name : Bool → ℕ → String
lmul_name false n = String.◌∷◌ "m" (decimal n)
lmul_name true n = String.◌∷◌ "m" (String.◌∷◌ "f" (decimal n))

unfoldable pub tokens_of_change : Modification → List Token
tokens_of_change (write_xreg rd bits) = xreg (decimal rd) ∷ hexadecimal (hex 16 bits) ∷ []
tokens_of_change (write_freg rd bits) = freg (decimal rd) ∷ hexadecimal (hex 16 bits) ∷ []
tokens_of_change (write_csr_reg rd name bits) =
    csr (csr_name rd name) ∷ hexadecimal (hex 16 bits) ∷ []
tokens_of_change (write_vec_ctx width n is_flmul elements) =
    sew (decimal width) ∷ lmul (lmul_name is_flmul n) ∷ vl (decimal elements) ∷ []
tokens_of_change (write_vreg_bytes idx bytes) =
    vreg (decimal idx) ∷ hexadecimal (hex_bytes bytes "") ∷ []
tokens_of_change (load addr) = mem_literal ∷ hexadecimal (hex 16 addr) ∷ []
tokens_of_change (store addr bits) =
    mem_literal ∷ hexadecimal (hex 16 addr) ∷ hexadecimal (hex 16 bits) ∷ []

unfoldable pub tokens_of_changes : List Modification → List Token
tokens_of_changes [] = []
tokens_of_changes (w ∷ ws) = tokens_of_change w ++ tokens_of_changes ws

unfoldable pub tokens_of_commit : Commit → List Token
tokens_of_commit c =
    core_literal
    ∷ core_id (decimal c.core_id)
    ∷ number_literal (decimal c.privilege)
    ∷ hexadecimal (hex 16 c.pc)
    ∷ instruction (hex 8 c.instruction)
    ∷ tokens_of_changes c.state_changes

-- The line of a commit.
unfoldable pub print_commit : Commit → String
unfolding tokens_of_commit tokens_of_changes tokens_of_change csr_name lmul_name hex_bytes
print_commit c = unwords (map token_text (tokens_of_commit c))

-- The values fit their types, a name has no blank in it and no colon behind it, and the bytes of a
-- vector register come in words.
abbrev pub IsSmallChange : Modification → Type 0
IsSmallChange (write_xreg rd bits) = (rd < u8_size) × (bits < u64_size)
IsSmallChange (write_freg rd bits) = (rd < u8_size) × (bits < u64_size)
IsSmallChange (write_csr_reg rd name bits) =
    (rd < u32_mod)
    × (bits < u64_size)
    × (all_chars is_black name ≡ true)
    × (strip_last b':' name ≡ none)
IsSmallChange (write_vec_ctx width n is_flmul elements) =
    (width < u32_mod) × (n < u32_mod) × (elements < u32_mod)
IsSmallChange (write_vreg_bytes idx bytes) =
    (idx < u8_size) × (0 < length bytes) × (length bytes % 4 ≡ 0) × All (λ b. b < 256) bytes
IsSmallChange (load addr) = addr < u64_size
IsSmallChange (store addr bits) = (addr < u64_size) × (bits < u64_size)

pub record IsSmall (c : Commit) : Type 0 where
  pub core_id : c.core_id < u8_size
  pub privilege : c.privilege < u8_size
  pub pc : c.pc < u64_size
  pub instruction : c.instruction < u32_mod
  pub changes : All IsSmallChange c.state_changes

module _ (n : ℕ) where
  decimal-u8 : n < u8_size → Reads u8_size 10 (decimal n) n
  decimal-u8 h = from_str_radix-decimal u8_size n (omega arith) h

  decimal-u32 : n < u32_mod → Reads u32_mod 10 (decimal n) n
  decimal-u32 h = from_str_radix-decimal u32_mod n (omega arith) h

  hex-u64 : n < u64_size → Reads u64_size 16 (hex 16 n) n
  hex-u64 h = from_str_radix-hex u64_size 16 n (omega arith) (omega arith) h

  hex-u32 : n < u32_mod → Reads u32_mod 16 (hex 8 n) n
  hex-u32 h = from_str_radix-hex u32_mod 8 n (omega arith) (omega arith) h

pub split_at-append :
    (s name : String)
    → all_chars is_ascii_digit s ≡ true
    → split_at b'_' (append s (String.◌∷◌ "_" name)) ≡ (s, some name)
split_at-append String.[] name h = refl
split_at-append (String.◌∷◌ c s) name h =
    let digit : (code c == b'_') ≡ false = ground arith in
    rw digit (rw (split_at-append s name (ground arith)) refl)

reversed_bytes-byte :
    (b : ℕ) (before : List ℕ) (out : String)
    → b < 256
    → reversed_bytes {E = ParseError} out ≡ ok before
    → reversed_bytes {E = ParseError} (digits 16 2 b out) ≡ ok (before ++ b ∷ [])
unfolding reversed_bytes digits hex
reversed_bytes-byte b before out small e =
    let byte = from_str_radix-hex 256 2 b (omega arith) (omega arith) small in rw e (rw byte refl)

reversed_bytes-hex_bytes :
    (bytes before : List ℕ) (out : String)
    → All (λ b. b < 256) bytes
    → reversed_bytes {E = ParseError} out ≡ ok before
    → reversed_bytes {E = ParseError} (hex_bytes bytes out) ≡ ok (before ++ bytes)
unfolding hex_bytes
reversed_bytes-hex_bytes [] before out h e = e ∙ rw (append-nil before) refl
reversed_bytes-hex_bytes (b ∷ bytes) before out (small, h) e =
    reversed_bytes-hex_bytes bytes (before ++ b ∷ []) (digits 16 2 b out) h
      (reversed_bytes-byte b before out small e)
    ∙ rw (append_assoc before (b ∷ []) bytes) refl

count_chars-hex_bytes :
    (bytes : List ℕ) (out : String)
    → count_chars (hex_bytes bytes out) ≡ 2 * length bytes + count_chars out
unfolding hex_bytes digits
count_chars-hex_bytes [] out = omega arith
count_chars-hex_bytes (b ∷ bytes) out =
    omega (arith, count_chars-hex_bytes bytes (digits 16 2 b out))

pub hex_bytes-chars :
    (bytes : List ℕ) (out : String)
    → all_chars is_ascii_hexdigit out ≡ true
    → all_chars is_ascii_hexdigit (hex_bytes bytes out) ≡ true
unfolding hex_bytes
hex_bytes-chars [] out h = h
hex_bytes-chars (b ∷ bytes) out h = hex_bytes-chars bytes (digits 16 2 b out) (hex_chars 2 b out h)

pub hex_bytes-letters :
    (bytes : List ℕ) (out : String)
    → (is_empty out ≡ false) ⊎ (0 < length bytes)
    → is_empty (hex_bytes bytes out) ≡ false
unfolding hex_bytes digits
hex_bytes-letters [] out (inl h) = h
hex_bytes-letters [] out (inr h) = absurd (omega arith)
hex_bytes-letters (b ∷ bytes) out h = hex_bytes-letters bytes (digits 16 2 b out) (inl refl)

pub strip_char-digits : (s : String) → all_chars is_ascii_digit s ≡ true → strip_char b'f' s ≡ none
strip_char-digits String.[] h = refl
strip_char-digits (String.◌∷◌ c s) h = ground arith

lmul_name-Lmul : (is_flmul : Bool) (n : ℕ) → n < u32_mod → Lmul (lmul_name is_flmul n) is_flmul n
unfolding lmul_name
lmul_name-Lmul false n h =
    whole (strip_char-digits (decimal n) (ground (arith, decimal_text n))) refl (decimal-u32 n h)
lmul_name-Lmul true n h = fraction refl (decimal-u32 n h)

module _ (name : String) (rd : ℕ) where
  csr_name-parts : split_at b'_' (csr_name rd name) ≡ (String.◌∷◌ "c" (decimal rd), some name)
  unfolding csr_name
  csr_name-parts = rw (split_at-append (decimal rd) name (ground (arith, decimal_text rd))) refl

tokens_of_change-Change :
    (w : Modification) (ts : List Token)
    → IsSmallChange w
    → NotHex ts
    → Change (tokens_of_change w ++ ts) w ts
unfolding tokens_of_change reversed_bytes
tokens_of_change-Change (write_xreg rd bits) ts (h, h') behind =
    of_xreg (decimal-u8 rd h) (hex-u64 bits h')
tokens_of_change-Change (write_freg rd bits) ts (h, h') behind =
    of_freg (decimal-u8 rd h) (hex-u64 bits h')
tokens_of_change-Change (write_csr_reg rd name bits) ts (h, h', _, _) behind =
    let parts = csr_name-parts name rd in
    let sliced : slice_1 {E = ParseError} (split_at b'_' (csr_name rd name)).0 ≡ ok (decimal rd) =
      rw parts refl in
    subst
      (λ s.
        Change (csr (csr_name rd name) ∷ hexadecimal (hex 16 bits) ∷ ts) (write_csr_reg rd s bits)
          ts)
      (ap (λ p. or_empty p.1) parts)
      (of_csr {r = csr_name rd name} sliced (decimal-u32 rd h) (hex-u64 bits h'))
tokens_of_change-Change (write_vec_ctx width n is_flmul elements) ts (h, h', h'') behind =
    of_vec_ctx (decimal-u32 width h) (lmul_name-Lmul is_flmul n h') (decimal-u32 elements h'')
tokens_of_change-Change (write_vreg_bytes idx bytes) ts (h, _, words, small) behind =
    of_vreg (decimal-u8 idx h) (omega (arith, count_chars-hex_bytes bytes ""))
      (reversed_bytes-hex_bytes bytes [] "" small refl)
tokens_of_change-Change (load addr) ts h behind = of_load (hex-u64 addr h) behind
tokens_of_change-Change (store addr bits) ts (h, h') behind =
    of_store (hex-u64 addr h) (hex-u64 bits h')

NotHex-changes : (ws : List Modification) → NotHex (tokens_of_changes ws)
unfolding tokens_of_changes tokens_of_change
NotHex-changes [] = tt
NotHex-changes (write_xreg _ _ ∷ ws) = tt
NotHex-changes (write_freg _ _ ∷ ws) = tt
NotHex-changes (write_csr_reg _ _ _ ∷ ws) = tt
NotHex-changes (write_vec_ctx _ _ _ _ ∷ ws) = tt
NotHex-changes (write_vreg_bytes _ _ ∷ ws) = tt
NotHex-changes (load _ ∷ ws) = tt
NotHex-changes (store _ _ ∷ ws) = tt

tokens_of_changes-Changes :
    (ws : List Modification) → All IsSmallChange ws → Changes (tokens_of_changes ws) ws
unfolding tokens_of_changes
tokens_of_changes-Changes [] h = no_more {ts = []} tt
tokens_of_changes-Changes (w ∷ ws) (h, hs) =
    one_more (tokens_of_change-Change w (tokens_of_changes ws) h (NotHex-changes ws))
      (tokens_of_changes-Changes ws hs)

-- The tokens of a commit are a line of the grammar.
pub tokens_of_commit-Line : (c : Commit) → IsSmall c → Line (tokens_of_commit c) c
unfolding tokens_of_commit
tokens_of_commit-Line c h =
    of_head (decimal-u8 c.core_id h.core_id) (decimal-u8 c.privilege h.privilege)
      (hex-u64 c.pc h.pc) (hex-u32 c.instruction h.instruction)
      (tokens_of_changes-Changes c.state_changes h.changes)
