-- ===== src/Difftest/SpikeParse.antt =====
-- The parser of simulator/src/difftest/spike.rs: `Parser`, `parse_single_commit` and
-- `backend_from_log`. A call that consumes a token returns the advanced parser beside its result.
use Prim.Native.String.{◌++◌ as str_append}
pub mod Grammar
pub mod Sound
pub mod Complete
pub mod Settled
pub mod Lexed
pub mod Printer
pub mod RoundTrip
pub mod Spelled
pub mod Rest
pub mod Typed
pub mod Tests
use pokedex.Prelude.{
  ℕ, zero, suc, ◌+◌, ◌%◌, ◌^◌, Bool, true, false, Option, none, some, List, [], ◌∷◌, ◌++◌, String,
  ◌==◌, not, if◌then◌else◌, Outcome, ok, err, panic, or_panic, ◌>>=◌, ◌>>◌, ensure, length, u32_mod,
}
use pokedex.Util.Text.{count_chars, slice_1, split_at, strip_mf, lines, from_str_radix, reason_of}
use pokedex.Difftest.SpikeText.{
  Token, core_literal, mem_literal, core_id, number_literal, instruction, hexadecimal, xreg, freg,
  vreg, sew, lmul, vl, csr, unknown, tokenize_spike_log_line,
}
use pokedex.Difftest.SpikeLog.{
  Modification, write_xreg, write_freg, write_csr_reg, write_vec_ctx, write_vreg_bytes, load, store,
  Commit, SpikeLogBackend, from_logs,
}

-- `pos`, `expected`, `found`, and `pos`, `kind`, `value`, `reason`. `out_of_fuel` has no counterpart.
pub data ParseError : Type 0 where
  unexpected_token : ℕ → String → Option Token → ParseError
  invalid_value : ℕ → String → String → String → ParseError
  out_of_fuel : ParseError

pub record Parser : Type 0 where
  pub tokens : List Token
  pub cursor : ℕ

abbrev rest_of : List Token → List Token
rest_of [] = []
rest_of (t ∷ ts) = ts

abbrev pub consume : Parser → Parser
consume p = record { tokens = rest_of p.tokens; cursor = p.cursor + 1 }

unfoldable pub expect :
    {A : Type 0} → String → (Token → Option A) → Parser → Outcome ParseError (A × Parser)
expect expected f p = elim p.tokens [
  | [] ↦ err (unexpected_token p.cursor expected none)
  | t ∷ _ ↦ elim (f t) [
    | none ↦ err (unexpected_token p.cursor expected (some t))
    | some val ↦ ok (val, consume p)
  ]
]

-- The functions that `expect` is called with.
abbrev is_core : Token → Option (Unit {0})
is_core core_literal = some tt
is_core _ = none

abbrev as_core_id : Token → Option String
as_core_id (core_id s) = some s
as_core_id _ = none

abbrev as_number : Token → Option String
as_number (number_literal s) = some s
as_number _ = none

abbrev as_hex : Token → Option String
as_hex (hexadecimal s) = some s
as_hex _ = none

abbrev as_instruction : Token → Option String
as_instruction (instruction s) = some s
as_instruction _ = none

abbrev as_lmul : Token → Option String
as_lmul (lmul s) = some s
as_lmul _ = none

abbrev as_vl : Token → Option String
as_vl (vl s) = some s
as_vl _ = none

abbrev pub u8_size : ℕ
u8_size = 256

abbrev pub u64_size : ℕ
u64_size = 2 ^ 64

-- `parse` or `from_str_radix`, with the error mapped to an `InvalidValue`
unfoldable pub int_at : ℕ → String → String → ℕ → ℕ → String → Outcome ParseError ℕ
int_at pos kind value size radix s = elim (from_str_radix size radix s) [
  | ok n ↦ ok n
  | err e ↦ err (invalid_value pos kind value (reason_of e))
  | panic ↦ panic
]

-- An `expect` of a hexadecimal number and its value as a `u64`.
unfoldable pub expect_hex : String → String → Parser → Outcome ParseError (ℕ × Parser)
unfolding expect int_at
expect_hex expected kind p = do
  (s, q) ← expect expected as_hex p
  bits ← int_at q.cursor kind s u64_size 16 s
  ok (bits, q)

unfoldable pub parse_xreg : String → Parser → Outcome ParseError (Modification × Parser)
unfolding int_at expect_hex
parse_xreg rd_str p = do
  rd ← int_at p.cursor "X reg index" rd_str u8_size 10 rd_str
  (bits, q) ← expect_hex "hex value for X register" "X reg value" (consume p)
  ok (write_xreg rd bits, q)

unfoldable pub parse_freg : String → Parser → Outcome ParseError (Modification × Parser)
unfolding int_at expect_hex
parse_freg rd_str p = do
  rd ← int_at p.cursor "F reg index" rd_str u8_size 10 rd_str
  (bits, q) ← expect_hex "hex value for F register" "F reg value" (consume p)
  ok (write_freg rd bits, q)

-- `parts.next().unwrap_or("")`
abbrev pub or_empty : Option String → String
or_empty none = ""
or_empty (some s) = s

unfoldable pub parse_csr : String → Parser → Outcome ParseError (Modification × Parser)
unfolding int_at expect_hex
parse_csr csr_str p =
    let (first, name) = split_at b'_' csr_str in
    do
      rd_str ← slice_1 first
      rd ← int_at p.cursor "csr index" rd_str u32_mod 10 rd_str
      (bits, q) ← expect_hex "hex value for csr" "csr value" (consume p)
      ok (write_csr_reg rd (or_empty name) bits, q)

-- Store data behind the address makes a store.
unfoldable pub load_or_store : ℕ → Parser → Outcome ParseError (Modification × Parser)
unfolding int_at
load_or_store addr p = elim p.tokens [
  | hexadecimal s ∷ _ ↦ do
    bits ← int_at (consume p).cursor "store value" s u64_size 16 s
    ok (store addr bits, consume p)
  | _ ↦ ok (load addr, p)
]

unfoldable pub parse_mem : Parser → Outcome ParseError (Modification × Parser)
unfolding expect_hex load_or_store
parse_mem p = do
  (addr, q) ← expect_hex "memory address" "mem address" (consume p)
  load_or_store addr q

-- The multiplier, and whether it divides.
unfoldable pub parse_lmul : ℕ → String → Outcome ParseError (Bool × ℕ)
unfolding int_at
parse_lmul cursor s = elim (strip_mf s) [
  | some digits ↦ do n ← int_at cursor "flmul" s u32_mod 10 digits; ok (true, n)
  | none ↦ do digits ← slice_1 s; n ← int_at cursor "lmul" s u32_mod 10 digits; ok (false, n)
]

unfoldable pub parse_vec_ctx : String → Parser → Outcome ParseError (Modification × Parser)
unfolding int_at expect parse_lmul
parse_vec_ctx sew_str p = do
  width ← int_at p.cursor "sew" sew_str u32_mod 10 sew_str
  (lmul_str, q) ← expect "lmul" as_lmul (consume p)
  (is_flmul, n) ← parse_lmul q.cursor lmul_str
  (vl_str, r) ← expect "vl" as_vl q
  elements ← int_at r.cursor "vl" vl_str u32_mod 10 vl_str
  ok (write_vec_ctx width n is_flmul elements, r)

-- `chunks(2).rev()`, each chunk read as a byte: the last two digits are the first byte.
unfoldable pub reversed_bytes {ℓ} : {E : Type ℓ} → String → Outcome E (List ℕ)
reversed_bytes String.[] = ok []
reversed_bytes (String.◌∷◌ c String.[]) = do
  b ← or_panic (from_str_radix u8_size 16 (String.◌∷◌ c String.[]))
  ok (b ∷ [])
reversed_bytes (String.◌∷◌ c (String.◌∷◌ d s)) = do
  bs ← reversed_bytes s
  b ← or_panic (from_str_radix u8_size 16 (String.◌∷◌ c (String.◌∷◌ d String.[])))
  ok (bs ++ b ∷ [])

unfoldable pub parse_vreg : String → Parser → Outcome ParseError (Modification × Parser)
unfolding int_at expect reversed_bytes
parse_vreg vreg_str p = do
  idx ← int_at p.cursor "vector RF index" vreg_str u8_size 10 vreg_str
  (hex, q) ← expect "hex value for vector register" as_hex (consume p)
  ensure (count_chars hex % 8 == 0) (invalid_value q.cursor "vrf value" hex "unaligned hex value")
  bytes ← reversed_bytes hex
  ok (write_vreg_bytes idx bytes, q)

-- The arms of the loop; `none` is the `break`.
unfoldable pub modification : Token → Parser → Option (Outcome ParseError (Modification × Parser))
unfolding parse_xreg parse_freg parse_csr parse_mem parse_vec_ctx parse_vreg
modification (xreg s) p = some (parse_xreg s p)
modification (freg s) p = some (parse_freg s p)
modification (csr s) p = some (parse_csr s p)
modification mem_literal p = some (parse_mem p)
modification (sew s) p = some (parse_vec_ctx s p)
modification (vreg s) p = some (parse_vreg s p)
modification _ p = none

-- The loop, with fuel.
unfoldable pub parse_changes : ℕ → Parser → Outcome ParseError (List Modification)
unfolding modification
parse_changes zero p = err out_of_fuel
parse_changes (suc fuel) p = elim p.tokens [
  | [] ↦ ok []
  | t ∷ _ ↦ elim (modification t p) [
    | none ↦ ok []
    | some parsed ↦ do (w, q) ← parsed; ws ← parse_changes fuel q; ok (w ∷ ws)
  ]
]

-- Each round consumes a token, so one round more than there are tokens is enough.
unfoldable pub parse_single_commit : List Token → Outcome ParseError Commit
unfolding expect int_at parse_changes
parse_single_commit tokens = do
  (_, p₁) ← expect "core literal" is_core (record { tokens = tokens; cursor = 0 })
  (core_id_str, p₂) ← expect "core id" as_core_id p₁
  id ← int_at 1 "core id" core_id_str u8_size 10 core_id_str
  (priv_str, p₃) ← expect "privilege level" as_number p₂
  privilege ← int_at 2 "privilege" priv_str u8_size 10 priv_str
  (pc_str, p₄) ← expect "pc" as_hex p₃
  pc ← int_at 3 "pc" (str_append "0x" pc_str) u64_size 16 pc_str
  (insn_str, p₅) ← expect "instruction" as_instruction p₄
  insn ← int_at 4 "instruction" (str_append "(0x" (str_append insn_str ")")) u32_mod 16 insn_str
  state_changes ← parse_changes (suc (length tokens)) p₅
  ok (record {
    core_id = id;
    privilege = privilege;
    pc = pc;
    instruction = insn;
    state_changes = state_changes;
  })

-- A line number, and the token or what its parser reports.
pub data LogError : Type 0 where
  unknown_token : ℕ → String → LogError
  bad_line : ℕ → ParseError → LogError

pub check_known : ℕ → List Token → Outcome LogError (Unit {0})
check_known line [] = ok tt
check_known line (unknown raw_token ∷ ts) = err (unknown_token line raw_token)
check_known line (t ∷ ts) = check_known line ts

-- `with_context`
abbrev pub on_line {ℓ} : {A : Type ℓ} → ℕ → Outcome ParseError A → Outcome LogError A
on_line line (ok a) = ok a
on_line line (err e) = err (bad_line line e)
on_line line panic = panic

unfoldable pub commit_of_line : ℕ → String → Outcome LogError Commit
unfolding check_known parse_single_commit tokenize_spike_log_line
commit_of_line line s = do
  tokens ← tokenize_spike_log_line s
  check_known line tokens
  on_line line (parse_single_commit tokens)

pub commits_from : ℕ → List String → Outcome LogError (List Commit)
commits_from line [] = ok []
commits_from line (s ∷ rest) = do
  commit ← commit_of_line line s
  commits ← commits_from (line + 1) rest
  ok (commit ∷ commits)

-- On the text of the file.
unfoldable pub backend_from_log : String → Outcome LogError SpikeLogBackend
unfolding commits_from commit_of_line lines
backend_from_log raw_str = do commits ← commits_from 0 (lines raw_str); ok (from_logs commits)
