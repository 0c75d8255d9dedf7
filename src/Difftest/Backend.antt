-- ===== src/Difftest/Backend.antt =====
-- The trait `DiffBackend` and `Status` of simulator/src/difftest/mod.rs, and the laws that the
-- comparison relies on.
use pokedex.Prelude.{ℕ, ◌≤◌, ◌<◌, ◌≡◌, Option, none, some, String, Outcome, ok}
use pokedex.Difftest.Replay.{CpuState, DiffRecord}
use pokedex.Difftest.Replay.Frame.{IsShaped, Replayed}

-- The errors that the two backends report, without the text of their messages.
pub data Failure : Type 0 where
  reset_mismatch : ℕ → ℕ → Failure
  no_reset no_exit unexpected_log : Failure
  eof_before_pc not_found_pc : ℕ → Failure

pub data Status : Type 0 where
  running : DiffRecord → Status
  exit : ℕ → Status

unfoldable pub get_exit_code : Status → Option ℕ
get_exit_code (running _) = none
get_exit_code (exit code) = some code

-- A mutating method returns the new value of `self`.
pub record DiffBackend : Type 1 where
  pub Source : Type 0
  pub description : Source → String
  pub diff_reset : Source → ℕ → Outcome Failure Source
  pub diff_step : Source → Outcome Failure (Status × Source)
  pub state : Source → CpuState

-- What the comparison needs of a backend, whose sources have a number of steps left.
pub record IsLawful (b : DiffBackend) (remaining : b.Source → ℕ) : Type 0 where
  pub reset_keeps :
      (s : b.Source) (pc : ℕ) {s' : b.Source} → b.diff_reset s pc ≡ ok s' → b.state s' ≡ b.state s
  pub reset_advances :
      (s : b.Source) (pc : ℕ) {s' : b.Source}
      → b.diff_reset s pc ≡ ok s'
      → remaining s' ≤ remaining s
  pub step_replays :
      (s : b.Source) {d : DiffRecord} {s' : b.Source}
      → b.diff_step s ≡ ok (running d, s')
      → IsShaped (b.state s)
      → Replayed (b.state s) d (b.state s')
  pub step_advances :
      (s : b.Source) {d : DiffRecord} {s' : b.Source}
      → b.diff_step s ≡ ok (running d, s')
      → remaining s' < remaining s
  pub exit_keeps :
      (s : b.Source) {code : ℕ} {s' : b.Source} → b.diff_step s ≡ ok (exit code, s') → s' ≡ s
