-- ===== src/Gdb/Poll.antt =====
-- `PokedexTarget` of simulator/src/gdb/mod.rs, and `TargetWrapper::poll` of simulator/src/gdb/run.rs.
pub mod Finds
pub mod Laws
use pokedex.Prelude.{
  ℕ, zero, suc, Bool, true, false, ◌||◌, Option, none, some, List, [], ◌∷◌, ◌==◌, if◌then◌else◌,
  Outcome, ok, panic, ◌>>=◌, Profile, as_u8,
}
use pokedex.Bus.Memory.{BusError}
use pokedex.Bus.Space.{debugger_read}
use pokedex.Model
use pokedex.Model.{ModelExport}
use pokedex.Model.Decode.{StepCode}
use pokedex.Pokedex.Simulator
use pokedex.Pokedex.Simulator.{Simulator, step, is_exited}

pub record PokedexTarget : Type 1 where
  pub Target : Type 0
  pub gdb_read_pc : Target → ℕ
  pub gdb_read_xreg : Target → ℕ → ℕ
  pub gdb_read_freg : Target → ℕ → ℕ
  pub gdb_read_vreg : Target → ℕ → ℕ → List ℕ
  pub gdb_read_csr : Target → ℕ → ℕ
  pub gdb_read_mem : Target → ℕ → ℕ → List ℕ
  pub gdb_is_exited : Target → Option ℕ
  pub gdb_step_one : Target → Outcome BusError Target

abbrev stepped : {S : Type 0} → StepCode → S → Outcome BusError S
stepped StepCode.committed sim = ok sim
stepped StepCode.exception sim = panic
stepped StepCode.interrupt sim = panic

-- `impl PokedexTarget for Simulator`
unfoldable pub step_one :
    (p : Profile) (m : ModelExport) → Simulator p m → Outcome BusError (Simulator p m)
unfolding step
step_one p m sim = do (code, sim') ← step p m sim; stepped code sim'

abbrev pub simulator_target : Profile → ModelExport → PokedexTarget
simulator_target p m = record {
  Target = Simulator p m;
  gdb_read_pc = λ sim. Model.read_pc m sim.core;
  gdb_read_xreg = λ sim idx. Model.read_xreg m sim.core idx;
  gdb_read_freg = λ sim idx. Model.read_freg m sim.core idx;
  gdb_read_vreg = λ sim idx len. Model.read_vreg m sim.core idx len;
  gdb_read_csr = λ sim idx. Model.read_csr m sim.core idx;
  gdb_read_mem = λ sim addr len. debugger_read sim.global.bus addr len;
  gdb_is_exited = is_exited p m;
  gdb_step_one = step_one p m;
}

pub data StopReason : Type 0 where
  exited : ℕ → StopReason
  sw_break : StopReason

-- `HashSet::contains`; the set is a list of its elements.
abbrev pub has : List ℕ → ℕ → Bool
has [] pc = false
has (b ∷ bs) pc = b == pc || has bs pc

module _ (t : PokedexTarget) (breakpoints : List ℕ) where
  open t use {Target, gdb_is_exited, gdb_read_pc, gdb_step_one}

  -- The loop of `poll`, at most `fuel` rounds of it; a program need not stop.
  unfoldable pub poll : ℕ → Target → Outcome BusError (Option (StopReason × Target))
  poll zero inner = ok none
  poll (suc fuel) inner = elim (gdb_is_exited inner) [
    | some code ↦ ok (some (exited (as_u8 code), inner))
    | none ↦ elim (has breakpoints (gdb_read_pc inner)) [
      | true ↦ ok (some (sw_break, inner))
      | false ↦ do inner' ← gdb_step_one inner; poll fuel inner'
    ]
  ]
