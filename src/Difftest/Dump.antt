-- ===== src/Difftest/Dump.antt =====
-- `CpuState::pretty_print` of simulator/src/difftest/replay.rs: the text that the report holds of a
-- state.
use Prim.Native.String.{◌++◌ as str_append}
use pokedex.Prelude.{
  ℕ, zero, suc, ◌+◌, ◌-◌, ◌*◌, List, [], ◌∷◌, ◌++◌, String, ◌==◌, leb, if◌then◌else◌, length,
  get_or, Outcome, ok, assert, ◌>>=◌, ◌>>◌, ◌≡◌, Outcome-cases, inl, inr, arith,
}
use pokedex.Util.Text.{concat, count_chars}
use pokedex.Util.Text.Print.{decimal, hex}
use pokedex.Difftest.Csr.{CsrState}
use pokedex.Difftest.Replay.{CpuState}
use pokedex.Difftest.Replay.Frame.{IsShaped}

-- `"c".repeat(n)`
abbrev repeat : String → ℕ → String
repeat c zero = ""
repeat c (suc n) = str_append c (repeat c n)

-- `{:<width}`: blanks behind a text up to a width
unfoldable pub pad_right : ℕ → String → String
pad_right width s = str_append s (repeat " " (width - count_chars s))

-- the cells `j`, `j + 1`, ... of the row `i`
abbrev cells : String → List ℕ → ℕ → ℕ → ℕ → List String
cells prefix regs i j zero = []
cells prefix regs i j (suc n) =
    let index = j + 8 * i in
    concat (prefix ∷ pad_right 2 (decimal index) ∷ ": 0x" ∷ hex 8 (get_or regs index 0) ∷ "  " ∷ [])
    ∷ cells prefix regs i (suc j) n

abbrev rows : String → List ℕ → ℕ → ℕ → List String
rows prefix regs i zero = []
rows prefix regs i (suc n) =
    concat (cells prefix regs i 0 8 ++ "\n" ∷ []) ∷ rows prefix regs (suc i) n

unfoldable pub pretty_print_regs {ℓ} : {E : Type ℓ} → String → List ℕ → Outcome E String
unfolding pad_right
pretty_print_regs prefix regs = do assert (length regs == 32); ok (concat (rows prefix regs 0 4))

abbrev csr_values : CsrState → List (String × ℕ)
csr_values csr =
    ("fcsr", csr.fcsr)
    ∷ ("vtype", csr.vtype)
    ∷ ("vl", csr.vl)
    ∷ ("vcsr", csr.vcsr)
    ∷ ("vstart", csr.vstart)
    ∷ ("mstatus", csr.mstatus)
    ∷ ("mstatush", csr.mstatush)
    ∷ ("mtvec", csr.mtvec)
    ∷ ("mtval", csr.mtval)
    ∷ ("mepc", csr.mepc)
    ∷ ("mie", csr.mie)
    ∷ ("mscratch", csr.mscratch)
    ∷ []

-- the loop over the CSRs, with its cursor
unfoldable pub csr_cells : ℕ → List (String × ℕ) → List String
unfolding pad_right
csr_cells cursor [] = []
csr_cells cursor ((name, val) ∷ csrs) =
    let full = csr_cells 0 csrs in
    let more = csr_cells (cursor + 1) csrs in
    concat (pad_right 8 name ∷ " = 0x" ∷ hex 8 val ∷ [])
    ∷ (if leb 4 (cursor + 1) then "\n" ∷ full else "  " ∷ more)

unfoldable pub pretty_print_csr : CsrState → String
unfolding csr_cells
pretty_print_csr csr = concat (csr_cells 0 (csr_values csr) ++ "\n" ∷ [])

abbrev ruler : String → String
ruler c = concat (repeat c 80 ∷ "\n" ∷ [])

abbrev heading : String → ℕ → String
heading what pc = concat (what ∷ " dump at PC 0x" ∷ hex 8 pc ∷ ":\n" ∷ [])

unfoldable pub pretty_print {ℓ} : {E : Type ℓ} → CpuState → Outcome E String
unfolding pretty_print_regs pretty_print_csr
pretty_print x = do
  gprs ← pretty_print_regs "x" x.gpr
  fprs ← pretty_print_regs "f" x.fpr
  ok (
      concat (
        ruler "="
        ∷ heading "General Purpose Register" x.pc
        ∷ gprs
        ∷ ruler "-"
        ∷ heading "Floating Point Register" x.pc
        ∷ fprs
        ∷ ruler "-"
        ∷ heading "CSR" x.pc
        ∷ pretty_print_csr x.csr
        ∷ ruler "-"
        ∷ []))

-- A state whose register files have their size is printed.
pretty_print-ok : (x : CpuState) → IsShaped x → (text : String) × (pretty_print {E = ⊥} x ≡ ok text)
unfolding pretty_print pretty_print_regs
pretty_print-ok x shaped = elim (Outcome-cases (pretty_print {E = ⊥} x)) [
  | inl printed ↦ printed
  | inr (inl (e, _)) ↦ elim e [ ]
  | inr (inr panics) ↦ let gprs = shaped.gprs in let fprs = shaped.fprs in absurd (ground arith)
]
