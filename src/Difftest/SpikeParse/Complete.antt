-- ===== src/Difftest/SpikeParse/Complete.antt =====
-- The parser accepts every line of the grammar, and its loop keeps within its fuel.
use Prim.Native.String.{◌++◌ as str_append}
use pokedex.Prelude.{
  ℕ, zero, suc, ◌+◌, ◌<◌, ◌≡◌, refl, Bool, List, [], ◌∷◌, String, ok, ◌>>=◌, arith, u32_mod, ◌↔◌,
  length,
}
use pokedex.Difftest.SpikeText.{
  Token, core_literal, mem_literal, core_id, number_literal, instruction, hexadecimal, xreg, freg,
  vreg, sew, csr,
}
use pokedex.Difftest.SpikeLog.{Modification, load, Commit}
use pokedex.Difftest.SpikeParse.{
  expect, int_at, expect_hex, u8_size, u64_size, parse_xreg, parse_freg, parse_csr, parse_mem,
  load_or_store, parse_lmul, parse_vec_ctx, parse_vreg, modification, parse_changes,
  parse_single_commit,
}
use pokedex.Difftest.SpikeParse.Grammar.{
  Reads, NotHex, Stops, Lmul, whole, fraction, Change, of_xreg, of_freg, of_csr, of_load, of_store,
  of_vec_ctx, of_vreg, Changes, no_more, one_more, Line, of_head, at, int_at_iff,
}
use pokedex.Difftest.SpikeParse.Sound.{parse_single_commit-Line}

int_at-Reads :
    (pos : ℕ) (kind value : String) (size radix : ℕ) (s : String) {n : ℕ}
    → Reads size radix s n
    → int_at pos kind value size radix s ≡ ok n
int_at-Reads pos kind value size radix s {n} h = (int_at_iff pos kind value size radix s n).1 h

parse_lmul-Lmul : (k : ℕ) {s : String} {b : Bool} {n : ℕ} → Lmul s b n → parse_lmul k s ≡ ok (b, n)
unfolding parse_lmul
parse_lmul-Lmul k (whole {s} {digits} plain sliced reads) =
    ground (arith, int_at-Reads k "lmul" s u32_mod 10 digits reads)
parse_lmul-Lmul k (fraction {s} {digits} divides reads) =
    ground (arith, int_at-Reads k "flmul" s u32_mod 10 digits reads)

load_or_store-NotHex :
    (addr : ℕ) (ts : List Token) (k : ℕ)
    → NotHex ts
    → load_or_store addr (at ts k) ≡ ok (load addr, at ts k)
unfolding load_or_store
load_or_store-NotHex addr [] k h = refl
load_or_store-NotHex addr (hexadecimal s ∷ ts) k h = elim h [ ]
load_or_store-NotHex addr (_ ∷ ts) k h = refl

expect_hex-Reads :
    (what kind : String) (s : String) (ts : List Token) (k : ℕ) {bits : ℕ}
    → Reads u64_size 16 s bits
    → expect_hex what kind (at (hexadecimal s ∷ ts) k) ≡ ok (bits, at ts (k + 1))
unfolding expect_hex
expect_hex-Reads what kind s ts k h = ground (arith, int_at-Reads (k + 1) kind s u64_size 16 s h)

-- One round of the loop on a change.
parse_changes-Change :
    {ts rest : List Token} {w : Modification} (fuel : ℕ) (k : ℕ)
    → Change ts w rest
    → (k' : ℕ) × (parse_changes (suc fuel) (at ts k)
        ≡ (do ws ← parse_changes fuel (at rest k'); ok (w ∷ ws)))
unfolding parse_changes modification
parse_changes-Change fuel k (of_xreg {r} {s} {ts = ts} index value) = (
  k + 1 + 1,
  simp (
    parse_xreg,
    int_at-Reads k "X reg index" r u8_size 10 r index,
    expect_hex-Reads "hex value for X register" "X reg value" s ts (k + 1) value,
  ),
)
parse_changes-Change fuel k (of_freg {r} {s} {ts = ts} index value) = (
  k + 1 + 1,
  simp (
    parse_freg,
    int_at-Reads k "F reg index" r u8_size 10 r index,
    expect_hex-Reads "hex value for F register" "F reg value" s ts (k + 1) value,
  ),
)
parse_changes-Change fuel k (of_csr {r} {s} {number} {ts = ts} sliced index value) = (
  k + 1 + 1,
  simp (
    parse_csr,
    sliced,
    int_at-Reads k "csr index" number u32_mod 10 number index,
    expect_hex-Reads "hex value for csr" "csr value" s ts (k + 1) value,
  ),
)
parse_changes-Change fuel k (of_load {a} {addr} {ts} value behind) = (
  k + 1 + 1,
  simp (
    parse_mem,
    expect_hex-Reads "memory address" "mem address" a ts (k + 1) value,
    load_or_store-NotHex addr ts (k + 1 + 1) behind,
  ),
)
parse_changes-Change fuel k (of_store {a} {s} {ts = ts} address value) = (
  k + 1 + 1 + 1,
  simp (
    parse_mem,
    load_or_store,
    expect_hex-Reads "memory address" "mem address" a (hexadecimal s ∷ ts) (k + 1) address,
    int_at-Reads (k + 1 + 1 + 1) "store value" s u64_size 16 s value,
  ),
)
parse_changes-Change fuel k (of_vec_ctx {e} {m} {l} {ts = ts} width parts elements) = (
  k + 1 + 1 + 1,
  simp (
    parse_vec_ctx,
    expect,
    int_at-Reads k "sew" e u32_mod 10 e width,
    parse_lmul-Lmul (k + 1 + 1) parts,
    int_at-Reads (k + 1 + 1 + 1) "vl" l u32_mod 10 l elements,
  ),
)
parse_changes-Change fuel k (of_vreg {r} {s} {ts = ts} index aligned read) = (
  k + 1 + 1,
  simp (parse_vreg, expect, int_at-Reads k "vector RF index" r u8_size 10 r index, aligned, read),
)

pub Change-shorter :
    {ts rest : List Token} {w : Modification} → Change ts w rest → length rest < length ts
Change-shorter (of_xreg _ _) = omega arith
Change-shorter (of_freg _ _) = omega arith
Change-shorter (of_csr _ _ _) = omega arith
Change-shorter (of_load _ _) = omega arith
Change-shorter (of_store _ _) = omega arith
Change-shorter (of_vec_ctx _ _ _) = omega arith
Change-shorter (of_vreg _ _ _) = omega arith

parse_changes-Stops :
    (fuel : ℕ) (ts : List Token) (k : ℕ) → Stops ts → parse_changes (suc fuel) (at ts k) ≡ ok []
unfolding parse_changes modification
parse_changes-Stops fuel [] k h = refl
parse_changes-Stops fuel (xreg r ∷ ts) k h = elim h [ ]
parse_changes-Stops fuel (freg r ∷ ts) k h = elim h [ ]
parse_changes-Stops fuel (csr r ∷ ts) k h = elim h [ ]
parse_changes-Stops fuel (mem_literal ∷ ts) k h = elim h [ ]
parse_changes-Stops fuel (sew r ∷ ts) k h = elim h [ ]
parse_changes-Stops fuel (vreg r ∷ ts) k h = elim h [ ]
parse_changes-Stops fuel (_ ∷ ts) k h = refl

parse_changes-Changes :
    {ts : List Token} {ws : List Modification} (fuel : ℕ) (k : ℕ)
    → length ts < fuel
    → Changes ts ws
    → parse_changes fuel (at ts k) ≡ ok ws
parse_changes-Changes zero k h c = absurd (omega arith)
parse_changes-Changes (suc fuel) k h (no_more {ts} stops) = parse_changes-Stops fuel ts k stops
parse_changes-Changes (suc fuel) k h (one_more c cs) =
    let (k', round) = parse_changes-Change fuel k c in
    let shorter = Change-shorter c in
    let rest = parse_changes-Changes fuel k' (omega arith) cs in rw round (rw rest)

parse_single_commit-of_head :
    (id priv pc insn : String) (ts : List Token) (c : Commit)
    → Reads u8_size 10 id c.core_id
    → Reads u8_size 10 priv c.privilege
    → Reads u64_size 16 pc c.pc
    → Reads u32_mod 16 insn c.instruction
    → Changes ts c.state_changes
    → parse_single_commit
        (core_literal ∷ core_id id ∷ number_literal priv ∷ hexadecimal pc ∷ instruction insn ∷ ts)
      ≡ ok c
unfolding parse_single_commit expect
parse_single_commit-of_head id priv pc insn ts c h₁ h₂ h₃ h₄ changes = simp (
  int_at-Reads 1 "core id" id u8_size 10 id h₁,
  int_at-Reads 2 "privilege" priv u8_size 10 priv h₂,
  int_at-Reads 3 "pc" (str_append "0x" pc) u64_size 16 pc h₃,
  int_at-Reads 4 "instruction" (str_append "(0x" (str_append insn ")")) u32_mod 16 insn h₄,
  parse_changes-Changes (suc (suc (suc (suc (suc (suc (length ts))))))) 5 (omega arith) changes,
)

parse_single_commit-of_Line :
    {ts : List Token} {c : Commit} → Line ts c → parse_single_commit ts ≡ ok c
parse_single_commit-of_Line (of_head {id} {priv} {pc} {insn} {ts} {c} h₁ h₂ h₃ h₄ changes) =
    parse_single_commit-of_head id priv pc insn ts c h₁ h₂ h₃ h₄ changes

-- The parser accepts a line exactly when the grammar does, and returns the commit that it spells.
pub parse_single_commit_iff :
    (ts : List Token) (c : Commit) → (parse_single_commit ts ≡ ok c) ↔ Line ts c
parse_single_commit_iff ts c = (parse_single_commit-Line ts c, parse_single_commit-of_Line)
