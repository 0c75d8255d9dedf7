-- ===== src/Difftest/SpikeParse/Sound.antt =====
-- What the parser accepts is in the grammar.
use pokedex.Prelude.{
  ℕ, zero, suc, ◌+◌, ◌%◌, ◌≡◌, refl, ◌==◌, Bool, none, some, List, [], ◌∷◌, String, ok, >>=-eq-ok,
  given, ensure, arith, u32_mod, inl, inr, Option-cases, length, ap, ◌∙◌,
}
use pokedex.Util.Text.{count_chars, split_at, slice_1, strip_mf}
use pokedex.Difftest.SpikeText.{
  Token, core_literal, mem_literal, core_id, number_literal, instruction, hexadecimal, xreg, freg,
  vreg, sew, lmul, vl, csr,
}
use pokedex.Difftest.SpikeLog.{Modification, Commit}
use pokedex.Difftest.SpikeParse.{
  Parser, ParseError, expect, is_core, as_core_id, as_number, as_instruction, as_hex, as_lmul,
  as_vl, int_at, expect_hex, u8_size, u64_size, parse_xreg, parse_freg, parse_csr, parse_mem,
  load_or_store, parse_lmul, parse_vec_ctx, parse_vreg, reversed_bytes, modification, parse_changes,
  parse_single_commit,
}
use pokedex.Difftest.SpikeParse.Grammar.{
  Reads, Stops, Lmul, whole, fraction, Change, of_xreg, of_freg, of_csr, of_load, of_store,
  of_vec_ctx, of_vreg, Changes, no_more, one_more, Line, of_head, at, int_at_iff, expect-ok,
  expect_hex-ok,
}

as_hex-eq : (t : Token) {s : String} → as_hex t ≡ some s → t ≡ hexadecimal s
as_hex-eq (hexadecimal s) e = cc
as_hex-eq _ e = cc

is_core-eq : (t : Token) {u : Unit {0}} → is_core t ≡ some u → t ≡ core_literal
is_core-eq core_literal e = refl
is_core-eq _ e = cc

as_core_id-eq : (t : Token) {s : String} → as_core_id t ≡ some s → t ≡ core_id s
as_core_id-eq (core_id s) e = cc
as_core_id-eq _ e = cc

as_number-eq : (t : Token) {s : String} → as_number t ≡ some s → t ≡ number_literal s
as_number-eq (number_literal s) e = cc
as_number-eq _ e = cc

as_instruction-eq : (t : Token) {s : String} → as_instruction t ≡ some s → t ≡ instruction s
as_instruction-eq (instruction s) e = cc
as_instruction-eq _ e = cc

as_lmul-eq : (t : Token) {s : String} → as_lmul t ≡ some s → t ≡ lmul s
as_lmul-eq (lmul s) e = cc
as_lmul-eq _ e = cc

as_vl-eq : (t : Token) {s : String} → as_vl t ≡ some s → t ≡ vl s
as_vl-eq (vl s) e = cc
as_vl-eq _ e = cc

ensure-eq-zero : (n : ℕ) (e : ParseError) {u : Unit {0}} → ensure (n == 0) e ≡ ok u → n ≡ 0
ensure-eq-zero n e h = ground arith

-- A change found behind equations.
found :
    {ts ts' rest rest' : List Token} {w w' : Modification}
    → Change ts w rest
    → ts' ≡ ts
    → w ≡ w'
    → rest ≡ rest'
    → Change ts' w' rest'
found {ts' = ts'} c here same behind = rw here (rw (← same, ← behind) c)

module _ (r : String) (ts : List Token) (k : ℕ) {w : Modification} {q : Parser} where
  parse_xreg-ok : parse_xreg r (at (xreg r ∷ ts) k) ≡ ok (w, q) → Change (xreg r ∷ ts) w q.tokens
  unfolding parse_xreg
  parse_xreg-ok e = given (>>=-eq-ok (int_at k "X reg index" r u8_size 10 r) _ e) λ (rd, first, e₁).
      given (>>=-eq-ok (expect_hex _ "X reg value" (at ts (k + 1))) _ e₁) λ ((_, q'), second, _).
        given (expect_hex-ok _ _ (at ts (k + 1)) second) λ (_, here, value).
          let index = (int_at_iff k "X reg index" r u8_size 10 r rd).0 first in
          found (of_xreg {ts = q'.tokens} index value) (cc) (cc) (cc)

  parse_freg-ok : parse_freg r (at (freg r ∷ ts) k) ≡ ok (w, q) → Change (freg r ∷ ts) w q.tokens
  unfolding parse_freg
  parse_freg-ok e = given (>>=-eq-ok (int_at k "F reg index" r u8_size 10 r) _ e) λ (rd, first, e₁).
      given (>>=-eq-ok (expect_hex _ "F reg value" (at ts (k + 1))) _ e₁) λ ((_, q'), second, _).
        given (expect_hex-ok _ _ (at ts (k + 1)) second) λ (_, here, value).
          let index = (int_at_iff k "F reg index" r u8_size 10 r rd).0 first in
          found (of_freg {ts = q'.tokens} index value) (cc) (cc) (cc)

  parse_csr-ok : parse_csr r (at (csr r ∷ ts) k) ≡ ok (w, q) → Change (csr r ∷ ts) w q.tokens
  unfolding parse_csr
  parse_csr-ok e = given (>>=-eq-ok (slice_1 (split_at b'_' r).0) _ e) λ (number, sliced, e₁).
      given (>>=-eq-ok (int_at k "csr index" number u32_mod 10 number) _ e₁) λ (rd, first, e₂).
        given (>>=-eq-ok (expect_hex _ "csr value" (at ts (k + 1))) _ e₂) λ ((_, q'), second, _).
          given (expect_hex-ok _ _ (at ts (k + 1)) second) λ (_, here, value).
            let index = (int_at_iff k "csr index" number u32_mod 10 number rd).0 first in
            found (of_csr {r = r} {ts = q'.tokens} sliced index value) (cc) (cc) (cc)

  parse_vreg-ok : parse_vreg r (at (vreg r ∷ ts) k) ≡ ok (w, q) → Change (vreg r ∷ ts) w q.tokens
  unfolding parse_vreg
  parse_vreg-ok e =
      given (>>=-eq-ok (int_at k "vector RF index" r u8_size 10 r) _ e) λ (idx, first, e₁).
        given (>>=-eq-ok (expect "hex value for vector register" as_hex (at ts (k + 1))) _ e₁)
          λ ((s, q'), second, e₂).
            given (>>=-eq-ok (ensure (count_chars s % 8 == 0) _) _ e₂) λ (_, aligned, e₃).
              given (>>=-eq-ok (reversed_bytes s) _ e₃) λ (bytes, read, _).
                given (expect-ok _ as_hex (at ts (k + 1)) second) λ (t, here, hex).
                  let index = (int_at_iff k "vector RF index" r u8_size 10 r idx).0 first in
                  let token = as_hex-eq t hex in
                  found
                    (of_vreg {ts = q'.tokens} index (ensure-eq-zero (count_chars s % 8) _ aligned)
                      read)
                    (cc) (cc) (cc)

found-Lmul : {s : String} {b b' : Bool} {n n' : ℕ} → Lmul s b n → b ≡ b' → n ≡ n' → Lmul s b' n'
found-Lmul l same_b same_n = rw (← same_b, ← same_n) l

pub parse_lmul-ok :
    (k : ℕ) (s : String) {is_flmul : Bool} {n : ℕ}
    → parse_lmul k s ≡ ok (is_flmul, n)
    → Lmul s is_flmul n
unfolding parse_lmul
parse_lmul-ok k s {is_flmul} {n} e = elim (Option-cases (strip_mf s)) [
  | inr (digits, divides) ↦
      given (>>=-eq-ok (int_at k "flmul" s u32_mod 10 digits) _ (rw (divides, parse_lmul) at e))
        λ (m, first, e₁).
          found-Lmul (fraction divides ((int_at_iff k "flmul" s u32_mod 10 digits m).0 first)) (cc)
            (cc)
  | inl plain ↦
      given (>>=-eq-ok (slice_1 s) _ (rw (plain, parse_lmul) at e)) λ (digits, sliced, e₁).
        given (>>=-eq-ok (int_at k "lmul" s u32_mod 10 digits) _ e₁) λ (m, first, e₂).
          found-Lmul (whole plain sliced ((int_at_iff k "lmul" s u32_mod 10 digits m).0 first)) (cc)
            (cc)
]

load_or_store-ok :
    (a : String) (addr : ℕ) (ts : List Token) (k : ℕ) {w : Modification} {q : Parser}
    → Reads u64_size 16 a addr
    → load_or_store addr (at ts k) ≡ ok (w, q)
    → Change (mem_literal ∷ hexadecimal a ∷ ts) w q.tokens
unfolding load_or_store
load_or_store-ok a addr [] k h e = found (of_load {ts = []} h tt) refl (cc) (cc)
load_or_store-ok a addr (hexadecimal s ∷ ts) k h e =
    given (>>=-eq-ok (int_at (k + 1) "store value" s u64_size 16 s) _ e) λ (bits, first, _).
      let value = (int_at_iff (k + 1) "store value" s u64_size 16 s bits).0 first in
      found (of_store {ts = ts} h value) refl (cc) (cc)
load_or_store-ok a addr (t ∷ ts) k h e = found (of_load {ts = t ∷ ts} h tt) refl (cc) (cc)

module _ (ts : List Token) (k : ℕ) {w : Modification} {q : Parser} where
  parse_mem-ok :
      parse_mem (at (mem_literal ∷ ts) k) ≡ ok (w, q) → Change (mem_literal ∷ ts) w q.tokens
  unfolding parse_mem
  parse_mem-ok e =
      given (>>=-eq-ok (expect_hex _ "mem address" (at ts (k + 1))) _ e) λ ((addr, q'), first, e₁).
        given (expect_hex-ok _ _ (at ts (k + 1)) first)
          λ (a, here, value). rw here (load_or_store-ok a addr q'.tokens q'.cursor value e₁)

  parse_vec_ctx-ok :
      (s : String)
      → parse_vec_ctx s (at (sew s ∷ ts) k) ≡ ok (w, q)
      → Change (sew s ∷ ts) w q.tokens
  unfolding parse_vec_ctx
  parse_vec_ctx-ok s e = given (>>=-eq-ok (int_at k "sew" s u32_mod 10 s) _ e) λ (width, first, e₁).
      given (>>=-eq-ok (expect "lmul" as_lmul (at ts (k + 1))) _ e₁) λ ((m, q₁), second, e₂).
        given (expect-ok _ as_lmul (at ts (k + 1)) second) λ (t, here, lmul_token).
          given (>>=-eq-ok (parse_lmul q₁.cursor m) _ e₂) λ ((is_flmul, n), third, e₃).
            given (>>=-eq-ok (expect "vl" as_vl q₁) _ e₃) λ ((l, q₂), fourth, e₄).
              given (expect-ok _ as_vl q₁ fourth) λ (t', here', vl_token).
                given (>>=-eq-ok (int_at q₂.cursor "vl" l u32_mod 10 l) _ e₄)
                  λ (elements, fifth, e₅).
                    let width_read = (int_at_iff k "sew" s u32_mod 10 s width).0 first in
                    let vl_read = (int_at_iff q₂.cursor "vl" l u32_mod 10 l elements).0 fifth in
                    let token = as_lmul-eq t lmul_token in
                    let token' = as_vl-eq t' vl_token in
                    let parts = parse_lmul-ok q₁.cursor m third in
                    found (of_vec_ctx {ts = q₂.tokens} width_read parts vl_read) (cc) (cc) (cc)

pub modification-ok :
    (t : Token) (ts : List Token) (k : ℕ) {w : Modification} {q : Parser}
    → modification t (at (t ∷ ts) k) ≡ some (ok (w, q))
    → Change (t ∷ ts) w q.tokens
unfolding modification
modification-ok (xreg r) ts k {w} {q} e = parse_xreg-ok r ts k {q = q} (cc)
modification-ok (freg r) ts k {w} {q} e = parse_freg-ok r ts k {q = q} (cc)
modification-ok (csr r) ts k {w} {q} e = parse_csr-ok r ts k {q = q} (cc)
modification-ok mem_literal ts k {w} {q} e = parse_mem-ok ts k {q = q} (cc)
modification-ok (sew s) ts k {w} {q} e = parse_vec_ctx-ok ts k {q = q} s (cc)
modification-ok (vreg r) ts k {w} {q} e = parse_vreg-ok r ts k {q = q} (cc)
modification-ok _ ts k e = cc

modification-none :
    (t : Token) (ts : List Token) (p : Parser) → modification t p ≡ none → Stops (t ∷ ts)
unfolding modification
modification-none (xreg r) ts p e = cc
modification-none (freg r) ts p e = cc
modification-none (csr r) ts p e = cc
modification-none mem_literal ts p e = cc
modification-none (sew s) ts p e = cc
modification-none (vreg r) ts p e = cc
modification-none _ ts p e = tt

parse_changes-ok :
    (fuel : ℕ) (ts : List Token) (k : ℕ) {ws : List Modification}
    → parse_changes fuel (at ts k) ≡ ok ws
    → Changes ts ws
unfolding parse_changes
parse_changes-ok zero ts k e = cc
parse_changes-ok (suc fuel) [] k {ws} e =
    let nothing : [] ≡ ws = cc in rw (← nothing) (no_more {ts = []} tt)
parse_changes-ok (suc fuel) (t ∷ ts) k {ws} e =
    elim (Option-cases (modification t (at (t ∷ ts) k))) [
      | inl stop ↦
          let nothing : [] ≡ ws = ground arith in
          rw (← nothing) (no_more {ts = t ∷ ts} (modification-none t ts (at (t ∷ ts) k) stop))
      | inr (parsed, found_one) ↦
          given (>>=-eq-ok parsed _ (rw (found_one, parse_changes) at e)) λ ((w, q), first, e₁).
            given (>>=-eq-ok (parse_changes fuel q) _ e₁) λ (ws', second, e₂).
              let all : w ∷ ws' ≡ ws = cc in
              let here = modification-ok t ts k (found_one ∙ ap some first) in
              rw (← all) (one_more here (parse_changes-ok fuel q.tokens q.cursor second))
    ]

head-eq :
    {ts r₁ r₂ r₃ r₄ r₅ : List Token} {t₁ t₂ t₃ t₄ t₅ : Token} {id priv pc insn : String}
    {u : Unit {0}}
    → ts ≡ t₁ ∷ r₁
    → r₁ ≡ t₂ ∷ r₂
    → r₂ ≡ t₃ ∷ r₃
    → r₃ ≡ t₄ ∷ r₄
    → r₄ ≡ t₅ ∷ r₅
    → is_core t₁ ≡ some u
    → as_core_id t₂ ≡ some id
    → as_number t₃ ≡ some priv
    → as_hex t₄ ≡ some pc
    → as_instruction t₅ ≡ some insn
    → ts ≡ core_literal ∷ core_id id ∷ number_literal priv ∷ hexadecimal pc ∷ instruction insn ∷ r₅
head-eq {t₁ = t₁} {t₂ = t₂} {t₃ = t₃} {t₄ = t₄} {t₅ = t₅} h₁ h₂ h₃ h₄ h₅ s₁ s₂ s₃ s₄ s₅ = cc (
  is_core-eq t₁ s₁,
  as_core_id-eq t₂ s₂,
  as_number-eq t₃ s₃,
  as_hex-eq t₄ s₄,
  as_instruction-eq t₅ s₅,
)

-- Whatever the parser accepts is a line of the grammar, and the commit is the one that it spells.
pub parse_single_commit-Line :
    (ts : List Token) (c : Commit) → parse_single_commit ts ≡ ok c → Line ts c
unfolding parse_single_commit
parse_single_commit-Line ts c e =
    given (>>=-eq-ok (expect "core literal" is_core (at ts 0)) _ e) λ ((_, q₁), h₁, e₁).
      given (expect-ok _ is_core (at ts 0) h₁) λ (t₁, here₁, token₁).
        given (>>=-eq-ok (expect "core id" as_core_id q₁) _ e₁) λ ((id, q₂), h₂, e₂).
          given (expect-ok _ as_core_id q₁ h₂) λ (t₂, here₂, token₂).
            given (>>=-eq-ok (int_at 1 "core id" id u8_size 10 id) _ e₂) λ (core_id', i₂, e₃).
              given (>>=-eq-ok (expect "privilege level" as_number q₂) _ e₃) λ ((priv, q₃), h₃, e₄).
                given (expect-ok _ as_number q₂ h₃) λ (t₃, here₃, token₃).
                  given (>>=-eq-ok (int_at 2 "privilege" priv u8_size 10 priv) _ e₄)
                    λ (privilege', i₃, e₅).
                      given (>>=-eq-ok (expect "pc" as_hex q₃) _ e₅) λ ((pc, q₄), h₄, e₆).
                        given (expect-ok _ as_hex q₃ h₄) λ (t₄, here₄, token₄).
                          given (>>=-eq-ok (int_at 3 "pc" _ u64_size 16 pc) _ e₆) λ (pc', i₄, e₇).
                            given (>>=-eq-ok (expect "instruction" as_instruction q₄) _ e₇)
                              λ ((insn, q₅), h₅, e₈).
                                given (expect-ok _ as_instruction q₄ h₅) λ (t₅, here₅, token₅).
                                  given (>>=-eq-ok (int_at 4 "instruction" _ u32_mod 16 insn) _ e₈)
                                    λ (insn', i₅, e₉).
                                      given (>>=-eq-ok (parse_changes (suc (length ts)) q₅) _ e₉)
                                        λ (ws, changes, e₁₀).
                                          let head =
                                            head-eq here₁ here₂ here₃ here₄ here₅ token₁ token₂
                                              token₃ token₄ token₅ in
                                          let it : Commit = record {
                                            core_id = core_id';
                                            privilege = privilege';
                                            pc = pc';
                                            instruction = insn';
                                            state_changes = ws;
                                          } in
                                          let same : it ≡ c = cc in
                                          rw head (
                                            rw (← same) (
                                              of_head {c = it}
                                                ((int_at_iff 1 "core id" id u8_size 10 id
                                                    core_id').0
                                                  i₂)
                                                ((int_at_iff 2 "privilege" priv u8_size 10 priv
                                                    privilege').0
                                                  i₃)
                                                ((int_at_iff 3 "pc" _ u64_size 16 pc pc').0 i₄)
                                                ((int_at_iff 4 "instruction" _ u32_mod 16 insn
                                                    insn').0
                                                  i₅)
                                                (parse_changes-ok (suc (length ts)) q₅.tokens
                                                  q₅.cursor changes)))
