-- ===== src/Difftest/SpikeLog.antt =====
-- `SpikeLogBackend` of simulator/src/difftest/spike.rs, from a log whose lines are parsed.
pub mod Reset
pub mod Laws
use pokedex.Prelude.{
  ℕ, zero, suc, ◌+◌, ◌-◌, ◌%◌, Bool, Option, none, some, List, [], ◌∷◌, String, ◌==◌, if◌then◌else◌,
  Outcome, ok, err, ◌>>=◌, get_elem?, or_panic, u32_mod, as_u32,
}
use pokedex.Difftest.Replay.{
  CpuState, DiffRecord, no_diff, new, write_gpr, write_fpr, write_vreg, write_csr,
}
use pokedex.Difftest.Backend.{
  Failure, eof_before_pc, not_found_pc, Status, running, exit, DiffBackend,
}

pub data Modification : Type 0 where
  write_xreg write_freg : ℕ → ℕ → Modification
  write_csr_reg : ℕ → String → ℕ → Modification
  write_vec_ctx : ℕ → ℕ → Bool → ℕ → Modification
  write_vreg_bytes : ℕ → List ℕ → Modification
  load : ℕ → Modification
  store : ℕ → ℕ → Modification

pub record Commit : Type 0 where
  pub core_id : ℕ
  pub privilege : ℕ
  pub pc : ℕ
  pub instruction : ℕ
  pub state_changes : List Modification

pub record SpikeLogBackend : Type 0 where
  pub index : ℕ
  pub logs : List Commit
  pub state : CpuState

-- `SpikeLogBackend::new`
unfoldable pub from_logs : List Commit → SpikeLogBackend
from_logs logs = record { index = 0; logs = logs; state = new }

abbrev pub max_skip : ℕ
max_skip = 16

-- The loop of `diff_reset`, with the rounds left. The tests are the source's: end of file first.
unfoldable pub skip_to : ℕ → ℕ → SpikeLogBackend → Outcome Failure SpikeLogBackend
skip_to zero expected_pc b = err (not_found_pc expected_pc)
skip_to (suc rounds) expected_pc b = elim (get_elem? b.logs b.index) [
  | none ↦ err (eof_before_pc expected_pc)
  | some commit ↦
      let rest = skip_to rounds expected_pc (record b { index = b.index + 1 }) in
      if commit.pc == expected_pc then ok b else rest
]

unfoldable pub diff_reset : SpikeLogBackend → ℕ → Outcome Failure SpikeLogBackend
diff_reset b expected_pc = skip_to max_skip expected_pc b

-- One state change of a commit. A CSR write that is refused panics; the vector context and the
-- memory events are ignored.
pub replay_change : Modification → CpuState → DiffRecord → Outcome Failure (CpuState × DiffRecord)
replay_change (write_xreg rd bits) x dr = write_gpr x rd (as_u32 bits) dr
replay_change (write_freg rd bits) x dr = write_fpr x rd (as_u32 bits) dr
replay_change (write_csr_reg rd name bits) x dr = do
  x' ← or_panic (write_csr x name (as_u32 bits))
  ok (x', dr)
replay_change (write_vreg_bytes idx bytes) x dr = write_vreg x idx bytes dr
replay_change (write_vec_ctx _ _ _ _) x dr = ok (x, dr)
replay_change (load _) x dr = ok (x, dr)
replay_change (store _ _) x dr = ok (x, dr)

-- The loop of `update_cpu_state`.
pub replay_changes :
    List Modification → CpuState → DiffRecord → Outcome Failure (CpuState × DiffRecord)
replay_changes [] x dr = ok (x, dr)
replay_changes (w ∷ ws) x dr = do (x', dr') ← replay_change w x dr; replay_changes ws x' dr'

unfoldable pub update_cpu_state : CpuState → Commit → Outcome Failure (CpuState × DiffRecord)
unfolding replay_changes replay_change
update_cpu_state x commit =
    replay_changes commit.state_changes (record x { pc = as_u32 commit.pc }) no_diff

-- A log that ends gives the exit code `u32::MAX`.
unfoldable pub diff_step : SpikeLogBackend → Outcome Failure (Status × SpikeLogBackend)
diff_step b = elim (get_elem? b.logs b.index) [
  | none ↦ ok (exit (u32_mod - 1), b)
  | some commit ↦ do
    (state', dr) ← update_cpu_state b.state commit
    ok (running dr, record b { state = state'; index = b.index + 1 })
]

abbrev pub spike_backend : DiffBackend
spike_backend = record {
  Source = SpikeLogBackend;
  description = λ b. "spike-log";
  diff_reset = diff_reset;
  diff_step = diff_step;
  state = λ b. b.state;
}
