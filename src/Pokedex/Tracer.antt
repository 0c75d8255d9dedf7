-- ===== src/Pokedex/Tracer.antt =====
-- `JsonFileTracer` of simulator/src/pokedex/mod.rs. The file is the list of the values whose JSON
-- lines it holds; a method returns the lines that it adds.
pub mod Names
pub mod Replay
pub mod RoundTrip
use pokedex.Prelude.{
  ℕ, Bool, true, false, Option, none, some, List, [], ◌∷◌, ◌++◌, map, String, ◌==◌, leb,
  if◌then◌else◌, Outcome, ok, panic, assert, ◌>>=◌, ◌>>◌,
}
use pokedex.Common.{StateWrite, CommitLog, PokedexLog}
use pokedex.Model.{
  ModelExport, CoreChange, StepDetail, xreg_changes, freg_changes, vreg_change_indices,
  csr_change_indices, read_vreg, read_csr, is_empty_changes,
}
use pokedex.Model.Decode.{Inst, nc, c}

-- The table of `name_of_csr`.
abbrev pub csr_names : List (ℕ × String)
csr_names =
    (0x001, "fflags")
    ∷ (0x002, "frm")
    ∷ (0x003, "fcsr")
    ∷ (0x008, "vstart")
    ∷ (0x009, "vxsat")
    ∷ (0x00a, "vxrm")
    ∷ (0x00f, "vcsr")
    ∷ (0xc20, "vl")
    ∷ (0xc21, "vtype")
    ∷ (0xc22, "vlenb")
    ∷ (0x300, "mstatus")
    ∷ (0x301, "misa")
    ∷ (0x304, "mie")
    ∷ (0x305, "mtvec")
    ∷ (0x310, "mstatush")
    ∷ (0x340, "mscratch")
    ∷ (0x341, "mepc")
    ∷ (0x342, "mcause")
    ∷ (0x344, "mip")
    ∷ (0xf11, "mvendorid")
    ∷ (0xf12, "marchid")
    ∷ (0xf13, "mimpid")
    ∷ (0xf14, "mhartid")
    ∷ (0xf15, "mconfigptr")
    ∷ []

-- The arms of a `match` on numbers, tried in order.
abbrev pub match_number : List (ℕ × String) → ℕ → Option String
match_number [] n = none
match_number ((key, name) ∷ arms) n =
    let rest = match_number arms n in if n == key then some name else rest

unfoldable pub name_of_csr {ℓ} : {E : Type ℓ} → ℕ → Outcome E String
name_of_csr csr = do
  assert (leb csr 0xFFF)
  elim (match_number csr_names csr) [ none ↦ panic | some name ↦ ok name ]

abbrev pub instruction_of : Inst → ℕ × Bool
instruction_of (nc inst) = (inst, false)
instruction_of (c inst) = (inst, true)

unfoldable pub trace_reset : ℕ → List PokedexLog
trace_reset pc = PokedexLog.reset pc ∷ []

unfoldable pub trace_exit : ℕ → List PokedexLog
trace_exit exit_code = PokedexLog.exit exit_code ∷ []

module _ (m : ModelExport) where
  -- the loop over `csr_change_indices`
  unfoldable pub csr_writes {ℓ} : {E : Type ℓ} → m.State → List ℕ → Outcome E (List StateWrite)
  unfolding name_of_csr
  csr_writes core [] = ok []
  csr_writes core (csr ∷ csrs) = do
    name ← name_of_csr csr
    writes ← csr_writes core csrs
    ok (StateWrite.csr name (read_csr m core csr) ∷ writes)

  -- `writes`, in the order in which the loops push them
  unfoldable pub state_writes {ℓ} : {E : Type ℓ} → CoreChange m → Outcome E (List StateWrite)
  unfolding csr_writes
  state_writes changes = do
    csrs ← csr_writes changes.core (csr_change_indices m changes)
    ok (
        map (λ (rd, value). StateWrite.xrf rd value) (xreg_changes m changes)
        ++ (map (λ (rd, value). StateWrite.frf rd value) (freg_changes m changes)
            ++ (map (λ rd. StateWrite.vrf rd (read_vreg m changes.core rd 32))
                  (vreg_change_indices m changes)
                ++ csrs)))

  unfoldable pub trace_step {ℓ} : {E : Type ℓ} → StepDetail m → Outcome E (List PokedexLog)
  unfolding state_writes
  trace_step detail = elim detail.inst [
    | some inst ↦ do
      writes ← state_writes detail.changes
      let (instruction, is_compressed) = instruction_of inst
      ok (
          PokedexLog.commit (record {
            pc = detail.pc;
            is_compressed = is_compressed;
            instruction = instruction;
            states_changed = writes;
          })
          ∷ [])
    | none ↦ do assert (is_empty_changes m detail.changes); ok []
  ]
