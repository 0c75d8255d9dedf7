-- ===== src/Difftest/SpikeParse/Grammar.antt =====
-- The grammar of a line's tokens, and what each step of the parser reads by it.
use pokedex.Prelude.{
  ℕ, ◌%◌, ◌≡◌, Bool, true, false, Option, none, some, List, [], ◌∷◌, String, ok, >>=-eq-ok, given,
  arith, u32_mod, ◌↔◌,
}
use pokedex.Util.Text.{from_str_radix, count_chars, split_at, slice_1, strip_mf}
use pokedex.Difftest.SpikeText.{
  Token, core_literal, mem_literal, core_id, number_literal, instruction, hexadecimal, xreg, freg,
  vreg, sew, lmul, vl, csr,
}
use pokedex.Difftest.SpikeLog.{
  Modification, write_xreg, write_freg, write_csr_reg, write_vec_ctx, write_vreg_bytes, load, store,
  Commit,
}
use pokedex.Difftest.SpikeParse.{
  Parser, ParseError, expect, as_hex, int_at, expect_hex, u8_size, u64_size, or_empty,
  reversed_bytes,
}

-- The text is an integer of the type with `size` values.
abbrev pub Reads : ℕ → ℕ → String → ℕ → Type 0
Reads size radix s n = from_str_radix size radix s ≡ ok n

-- Neither the end of the line nor a token that begins a change or is a value.
abbrev pub NotHex : List Token → Type 0
NotHex (hexadecimal s ∷ ts) = ⊥
NotHex _ = Unit

abbrev pub Stops : List Token → Type 0
Stops (xreg s ∷ ts) = ⊥
Stops (freg s ∷ ts) = ⊥
Stops (csr s ∷ ts) = ⊥
Stops (mem_literal ∷ ts) = ⊥
Stops (sew s ∷ ts) = ⊥
Stops (vreg s ∷ ts) = ⊥
Stops _ = Unit

-- `m` and a number, or `mf` and a number
pub data Lmul : String → Bool → ℕ → Type 0 where
  whole :
      {s digits : String} {n : ℕ}
      → strip_mf s ≡ none
      → slice_1 {E = ParseError} s ≡ ok digits
      → Reads u32_mod 10 digits n
      → Lmul s false n
  fraction :
      {s digits : String} {n : ℕ}
      → strip_mf s ≡ some digits
      → Reads u32_mod 10 digits n
      → Lmul s true n

-- The tokens begin with a change, and those behind it are the rest.
pub data Change : List Token → Modification → List Token → Type 0 where
  of_xreg :
      {r s : String} {rd bits : ℕ} {ts : List Token}
      → Reads u8_size 10 r rd
      → Reads u64_size 16 s bits
      → Change (xreg r ∷ hexadecimal s ∷ ts) (write_xreg rd bits) ts
  of_freg :
      {r s : String} {rd bits : ℕ} {ts : List Token}
      → Reads u8_size 10 r rd
      → Reads u64_size 16 s bits
      → Change (freg r ∷ hexadecimal s ∷ ts) (write_freg rd bits) ts
  of_csr :
      {r s number : String} {rd bits : ℕ} {ts : List Token}
      → slice_1 {E = ParseError} (split_at b'_' r).0 ≡ ok number
      → Reads u32_mod 10 number rd
      → Reads u64_size 16 s bits
      → Change
          (csr r ∷ hexadecimal s ∷ ts)
          (write_csr_reg rd (or_empty (split_at b'_' r).1) bits)
          ts
  of_load :
      {a : String} {addr : ℕ} {ts : List Token}
      → Reads u64_size 16 a addr
      → NotHex ts
      → Change (mem_literal ∷ hexadecimal a ∷ ts) (load addr) ts
  of_store :
      {a s : String} {addr bits : ℕ} {ts : List Token}
      → Reads u64_size 16 a addr
      → Reads u64_size 16 s bits
      → Change (mem_literal ∷ hexadecimal a ∷ hexadecimal s ∷ ts) (store addr bits) ts
  of_vec_ctx :
      {e m l : String} {width n elements : ℕ} {is_flmul : Bool} {ts : List Token}
      → Reads u32_mod 10 e width
      → Lmul m is_flmul n
      → Reads u32_mod 10 l elements
      → Change (sew e ∷ lmul m ∷ vl l ∷ ts) (write_vec_ctx width n is_flmul elements) ts
  of_vreg :
      {r s : String} {idx : ℕ} {bytes : List ℕ} {ts : List Token}
      → Reads u8_size 10 r idx
      → count_chars s % 8 ≡ 0
      → reversed_bytes {E = ParseError} s ≡ ok bytes
      → Change (vreg r ∷ hexadecimal s ∷ ts) (write_vreg_bytes idx bytes) ts

pub data Changes : List Token → List Modification → Type 0 where
  no_more : {ts : List Token} → Stops ts → Changes ts []
  one_more :
      {ts rest : List Token} {w : Modification} {ws : List Modification}
      → Change ts w rest
      → Changes rest ws
      → Changes ts (w ∷ ws)

-- A line is the five tokens of a commit's head, and then its changes.
pub data Line : List Token → Commit → Type 0 where
  of_head :
      {id priv pc insn : String} {ts : List Token} {c : Commit}
      → Reads u8_size 10 id c.core_id
      → Reads u8_size 10 priv c.privilege
      → Reads u64_size 16 pc c.pc
      → Reads u32_mod 16 insn c.instruction
      → Changes ts c.state_changes
      → Line
          (core_literal ∷ core_id id ∷ number_literal priv ∷ hexadecimal pc ∷ instruction insn ∷ ts)
          c

abbrev pub at : List Token → ℕ → Parser
at ts k = record { tokens = ts; cursor = k }

pub int_at_iff :
    (pos : ℕ) (kind value : String) (size radix : ℕ) (s : String) (n : ℕ)
    → (int_at pos kind value size radix s ≡ ok n) ↔ Reads size radix s n
unfolding int_at
int_at_iff pos kind value size radix s n = ground arith

-- `expect` takes the first token.
expect-tokens :
    {A : Type 0} (what : String) (f : Token → Option A) (ts : List Token) (k : ℕ) {v : A}
    {q : Parser}
    → expect what f (at ts k) ≡ ok (v, q)
    → (t : Token) × (ts ≡ t ∷ q.tokens) × (f t ≡ some v)
unfolding expect
expect-tokens what f [] k e = cc
expect-tokens what f (t ∷ rest) k {v} {q} e = (t, ground arith, ground arith)

pub expect-ok :
    {A : Type 0} (what : String) (f : Token → Option A) (p : Parser) {v : A} {q : Parser}
    → expect what f p ≡ ok (v, q)
    → (t : Token) × (p.tokens ≡ t ∷ q.tokens) × (f t ≡ some v)
expect-ok what f p e = expect-tokens what f p.tokens p.cursor e

as_hex-eq : (t : Token) {s : String} → as_hex t ≡ some s → t ≡ hexadecimal s
as_hex-eq (hexadecimal s) e = cc
as_hex-eq _ e = cc

pub expect_hex-ok :
    (what kind : String) (p : Parser) {bits : ℕ} {q : Parser}
    → expect_hex what kind p ≡ ok (bits, q)
    → (s : String) × (p.tokens ≡ hexadecimal s ∷ q.tokens) × Reads u64_size 16 s bits
unfolding expect_hex
expect_hex-ok what kind p e = given (>>=-eq-ok (expect what as_hex p) _ e) λ ((s, q'), first, e₁).
    given (expect-ok what as_hex p first) λ (t, here, hex).
      given (>>=-eq-ok (int_at q'.cursor kind s u64_size 16 s) _ e₁) λ (bits', second, _).
        let token = as_hex-eq t hex in
        let value = (int_at_iff q'.cursor kind s u64_size 16 s bits').0 second in (s, cc, (cc))
