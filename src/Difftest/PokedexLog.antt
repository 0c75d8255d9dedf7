-- ===== src/Difftest/PokedexLog.antt =====
-- simulator/src/difftest/pokedex.rs, from a log whose lines are parsed.
pub mod Laws
pub mod Effects
use pokedex.Prelude.{
  ℕ, suc, ◌+◌, Option, none, some, List, [], ◌∷◌, String, not, ◌==◌, if◌then◌else◌, Outcome, ok,
  err, panic, ◌>>=◌, get_elem?, or_panic,
}
use pokedex.Common.{StateWrite, CommitLog, PokedexLog}
use pokedex.Difftest.Replay.{
  CpuState, DiffRecord, no_diff, new, write_gpr, write_fpr, write_vreg, write_csr,
}
use pokedex.Difftest.Backend.{
  Failure, reset_mismatch, no_reset, no_exit, unexpected_log, Status, running, exit, DiffBackend,
}

pub record PokedexLogBackend : Type 0 where
  pub index : ℕ
  pub logs : List PokedexLog
  pub state : CpuState

-- `PokedexLogBackend::new`
unfoldable pub from_logs : List PokedexLog → PokedexLogBackend
from_logs logs = record { index = 0; logs = logs; state = new }

abbrev reset_pc_of : PokedexLog → Outcome Failure ℕ
reset_pc_of (PokedexLog.reset pc) = ok pc
reset_pc_of _ = panic

-- `&self.logs[0]`
unfoldable pub get_reset_pc : PokedexLogBackend → Outcome Failure ℕ
get_reset_pc b = elim (get_elem? b.logs 0) [ none ↦ panic | some log ↦ reset_pc_of log ]

abbrev check_reset : PokedexLog → ℕ → PokedexLogBackend → Outcome Failure PokedexLogBackend
check_reset (PokedexLog.reset pc) expected_pc b =
    if not (pc == expected_pc)
    then err (reset_mismatch expected_pc pc)
    else ok (record b { index = b.index + 1 })
check_reset _ expected_pc b = err no_reset

unfoldable pub diff_reset : PokedexLogBackend → ℕ → Outcome Failure PokedexLogBackend
diff_reset b expected_pc = elim (get_elem? b.logs b.index) [
  | none ↦ panic
  | some log ↦ check_reset log expected_pc b
]

-- One write of a commit. A CSR write that is refused panics.
pub replay_write : StateWrite → CpuState → DiffRecord → Outcome Failure (CpuState × DiffRecord)
replay_write (StateWrite.xrf rd value) x dr = write_gpr x rd value dr
replay_write (StateWrite.frf rd value) x dr = write_fpr x rd value dr
replay_write (StateWrite.vrf rd value) x dr = write_vreg x rd value dr
replay_write (StateWrite.csr name value) x dr = do
  x' ← or_panic (write_csr x name value)
  ok (x', dr)

-- The loop of `update_state`.
pub replay_writes :
    List StateWrite → CpuState → DiffRecord → Outcome Failure (CpuState × DiffRecord)
replay_writes [] x dr = ok (x, dr)
replay_writes (w ∷ ws) x dr = do (x', dr') ← replay_write w x dr; replay_writes ws x' dr'

unfoldable pub update_state : CpuState → CommitLog → Outcome Failure (CpuState × DiffRecord)
unfolding replay_writes replay_write
update_state x commit = replay_writes commit.states_changed (record x { pc = commit.pc }) no_diff

abbrev step_on : PokedexLog → PokedexLogBackend → Outcome Failure (Status × PokedexLogBackend)
step_on (PokedexLog.exit code) b = ok (exit code, b)
step_on (PokedexLog.commit commit) b = do
  (state', dr) ← update_state b.state commit
  ok (running dr, record b { state = state'; index = b.index + 1 })
step_on _ b = err unexpected_log

unfoldable pub diff_step : PokedexLogBackend → Outcome Failure (Status × PokedexLogBackend)
diff_step b = elim (get_elem? b.logs b.index) [ none ↦ err no_exit | some log ↦ step_on log b ]

abbrev pub pokedex_backend : DiffBackend
pokedex_backend = record {
  Source = PokedexLogBackend;
  description = λ b. "pokedex-log";
  diff_reset = diff_reset;
  diff_step = diff_step;
  state = λ b. b.state;
}
