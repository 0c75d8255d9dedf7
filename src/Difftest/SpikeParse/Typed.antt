-- ===== src/Difftest/SpikeParse/Typed.antt =====
-- The values of a parsed commit fit the types of its fields.
use pokedex.Prelude.{
  ℕ, ◌+◌, ◌/◌, ◌%◌, ◌<◌, ◌≡◌, refl, Bool, List, [], ◌∷◌, ◌++◌, String, arith, All, ok, or_panic,
  or_panic-eq-ok, >>=-eq-ok, given, u32_mod, length, length-append,
}
use pokedex.Util.Text.{count_chars, from_str_radix}
use pokedex.Util.Text.Digits.{from_str_radix-lt}
use pokedex.Difftest.SpikeText.{Token}
use pokedex.Difftest.SpikeLog.{
  Modification, write_xreg, write_freg, write_csr_reg, write_vec_ctx, write_vreg_bytes, load, store,
  Commit,
}
use pokedex.Difftest.SpikeParse.{u8_size, u64_size, reversed_bytes, ParseError, parse_single_commit}
use pokedex.Difftest.SpikeParse.Grammar.{
  Reads, Lmul, whole, fraction, Change, of_xreg, of_freg, of_csr, of_load, of_store, of_vec_ctx,
  of_vreg, Changes, no_more, one_more, Line, of_head,
}
use pokedex.Difftest.SpikeParse.Complete.{parse_single_commit_iff}

abbrev IsByte : ℕ → Type 0
IsByte b = b < u8_size

-- The values are in the ranges of `u8`, `u32` and `u64`, and the bytes of a vector register come in
-- words.
abbrev pub IsTypedChange : Modification → Type 0
IsTypedChange (write_xreg rd bits) = (rd < u8_size) × (bits < u64_size)
IsTypedChange (write_freg rd bits) = (rd < u8_size) × (bits < u64_size)
IsTypedChange (write_csr_reg rd name bits) = (rd < u32_mod) × (bits < u64_size)
IsTypedChange (write_vec_ctx width n is_flmul elements) =
    (width < u32_mod) × (n < u32_mod) × (elements < u32_mod)
IsTypedChange (write_vreg_bytes idx bytes) =
    (idx < u8_size) × (length bytes % 4 ≡ 0) × All IsByte bytes
IsTypedChange (load addr) = addr < u64_size
IsTypedChange (store addr bits) = (addr < u64_size) × (bits < u64_size)

pub record IsTyped (c : Commit) : Type 0 where
  pub core_id : c.core_id < u8_size
  pub privilege : c.privilege < u8_size
  pub pc : c.pc < u64_size
  pub instruction : c.instruction < u32_mod
  pub changes : All IsTypedChange c.state_changes

module _ (s : String) {n : ℕ} where
  u8-lt : (radix : ℕ) → 0 < radix → Reads u8_size radix s n → n < u8_size
  u8-lt radix h e = from_str_radix-lt u8_size radix s (omega arith) h e

  u32-lt : (radix : ℕ) → 0 < radix → Reads u32_mod radix s n → n < u32_mod
  u32-lt radix h e = from_str_radix-lt u32_mod radix s (omega arith) h e

  u64-lt : Reads u64_size 16 s n → n < u64_size
  u64-lt e = from_str_radix-lt u64_size 16 s (omega arith) (omega arith) e

All-append_one : (P : ℕ → Type 0) (xs : List ℕ) (x : ℕ) → All P xs → P x → All P (xs ++ x ∷ [])
All-append_one P [] x h hx = (hx, tt)
All-append_one P (y ∷ xs) x (h, hs) hx = (h, All-append_one P xs x hs hx)

-- Two digits are a byte.
reversed_bytes-IsByte :
    (s : String) {bytes : List ℕ}
    → reversed_bytes {E = ParseError} s ≡ ok bytes
    → All IsByte bytes × (length bytes ≡ (count_chars s + 1) / 2)
unfolding reversed_bytes
reversed_bytes-IsByte String.[] {bytes} e = let same : [] ≡ bytes = cc in rw (← same) (tt, refl)
reversed_bytes-IsByte (String.◌∷◌ c String.[]) {bytes} e =
    let word = String.◌∷◌ c String.[] in
    given (>>=-eq-ok (or_panic (from_str_radix u8_size 16 word)) _ e) λ (b, read, e₁).
      let small =
        u8-lt word 16 (omega arith) (or_panic-eq-ok (from_str_radix u8_size 16 word) read) in
      let same : b ∷ [] ≡ bytes = cc in rw (← same) ((small, tt), refl)
reversed_bytes-IsByte (String.◌∷◌ c (String.◌∷◌ d s)) {bytes} e =
    let word = String.◌∷◌ c (String.◌∷◌ d String.[]) in
    given (>>=-eq-ok (reversed_bytes s) _ e) λ (bs, first, e₁).
      given (>>=-eq-ok (or_panic (from_str_radix u8_size 16 word)) _ e₁) λ (b, read, e₂).
        given (reversed_bytes-IsByte s first) λ (all, count).
          let small =
            u8-lt word 16 (omega arith) (or_panic-eq-ok (from_str_radix u8_size 16 word) read) in
          let same : bs ++ b ∷ [] ≡ bytes = cc in
          rw (← same)
            (All-append_one IsByte bs b all small, omega (arith, count, length-append bs (b ∷ [])))

Lmul-lt : {s : String} {b : Bool} {n : ℕ} → Lmul s b n → n < u32_mod
Lmul-lt (whole {digits = digits} _ _ reads) = u32-lt digits 10 (omega arith) reads
Lmul-lt (fraction {digits = digits} _ reads) = u32-lt digits 10 (omega arith) reads

Change-IsTyped : {ts rest : List Token} {w : Modification} → Change ts w rest → IsTypedChange w
Change-IsTyped (of_xreg {r} {s} index value) = (u8-lt r 10 (omega arith) index, u64-lt s value)
Change-IsTyped (of_freg {r} {s} index value) = (u8-lt r 10 (omega arith) index, u64-lt s value)
Change-IsTyped (of_csr {s = s} {number = number} sliced index value) =
    (u32-lt number 10 (omega arith) index, u64-lt s value)
Change-IsTyped (of_load {a} address _) = u64-lt a address
Change-IsTyped (of_store {a} {s} address value) = (u64-lt a address, u64-lt s value)
Change-IsTyped (of_vec_ctx {e} {m} {l} width parts elements) =
    (u32-lt e 10 (omega arith) width, Lmul-lt parts, u32-lt l 10 (omega arith) elements)
Change-IsTyped (of_vreg {r} {s} index aligned read) =
    let (all, count) = reversed_bytes-IsByte s read in
    (u8-lt r 10 (omega arith) index, omega arith, all)

Changes-IsTyped : {ts : List Token} {ws : List Modification} → Changes ts ws → All IsTypedChange ws
Changes-IsTyped (no_more _) = tt
Changes-IsTyped (one_more c cs) = (Change-IsTyped c, Changes-IsTyped cs)

Line-IsTyped : {ts : List Token} {c : Commit} → Line ts c → IsTyped c
Line-IsTyped (of_head {id} {priv} {pc} {insn} h₁ h₂ h₃ h₄ changes) = record {
  core_id = u8-lt id 10 (omega arith) h₁;
  privilege = u8-lt priv 10 (omega arith) h₂;
  pc = u64-lt pc h₃;
  instruction = u32-lt insn 16 (omega arith) h₄;
  changes = Changes-IsTyped changes;
}

-- The values of a parsed commit are in the ranges of the types of its fields, and the bytes of each
-- vector register are bytes and come in words of four.
pub parse_single_commit-IsTyped :
    (ts : List Token) (c : Commit) → parse_single_commit ts ≡ ok c → IsTyped c
parse_single_commit-IsTyped ts c e = Line-IsTyped ((parse_single_commit_iff ts c).0 e)
