-- ===== src/Difftest/Run.antt =====
-- `run_diff`, `SamePolicy` and `DiffReport` of simulator/src/difftest/mod.rs.
mod Rounds
pub mod Verdict
pub mod Total
use pokedex.Prelude.{
  ℕ, zero, suc, Bool, true, false, not, ◌||◌, Option, none, some, List, [], String, ◌==◌,
  if◌then◌else◌, Outcome, ok, err, panic, assert, ◌>>=◌, ◌>>◌,
}
use pokedex.Difftest.Replay.{CpuState, DiffRecord, combine, compare}
use pokedex.Difftest.Notes.{Note, pretty_print_diff}
use pokedex.Difftest.Backend.{Failure, Status, running, exit, get_exit_code, DiffBackend}

pub data SamePolicy : Type 0 where
  strict success_source1 success_source2 : SamePolicy

abbrev pub is_some : Option ℕ → Bool
is_some none = false
is_some (some _) = true

-- `==` on exit codes
abbrev pub exit_eq : Option ℕ → Option ℕ → Bool
exit_eq none none = true
exit_eq (some a) (some b) = a == b
exit_eq _ _ = false

abbrev pub same_by_policy : SamePolicy → Option ℕ → Option ℕ → Bool
same_by_policy strict exit1 exit2 = false
same_by_policy success_source1 exit1 exit2 = exit_eq exit1 (some 0)
same_by_policy success_source2 exit1 exit2 = exit_eq exit2 (some 0)

unfoldable pub is_same : SamePolicy → Option ℕ → Option ℕ → Outcome Failure Bool
is_same policy exit1 exit2 = do
  assert (is_some exit1 || is_some exit2)
  ok (if exit_eq exit1 exit2 then true else same_by_policy policy exit1 exit2)

-- The strings `state1` and `state2` print a state, which stands for them here.
pub record DiffReport : Type 0 where
  pub is_same : Bool
  pub source1 : String
  pub source2 : String
  pub exit1 : Option ℕ
  pub exit2 : Option ℕ
  pub diff_notes : List Note
  pub state1 : Option CpuState
  pub state2 : Option CpuState

module _ (b1 b2 : DiffBackend) (policy : SamePolicy) where
  open b1 use {
    Source as Source1, description as description1, diff_reset as diff_reset1,
    diff_step as diff_step1, state as state_of1,
  }
  open b2 use {
    Source as Source2, description as description2, diff_reset as diff_reset2,
    diff_step as diff_step2, state as state_of2,
  }

  abbrev pub report_difference : String → String → Source1 → Source2 → DiffReport
  report_difference name1 name2 s1 s2 = record {
    is_same = false;
    source1 = name1;
    source2 = name2;
    exit1 = none;
    exit2 = none;
    diff_notes = pretty_print_diff (state_of1 s1) (state_of2 s2);
    state1 = some (state_of1 s1);
    state2 = some (state_of2 s2);
  }

  -- The arm of the loop for a side that has exited.
  abbrev pub report_exit :
      String → String → Option ℕ → Option ℕ → Source1 → Source2 → Outcome Failure DiffReport
  report_exit name1 name2 e1 e2 s1 s2 = do
    same ← is_same policy e1 e2
    ok (record {
      is_same = same;
      source1 = name1;
      source2 = name2;
      exit1 = e1;
      exit2 = e2;
      diff_notes = [];
      state1 = if not same then some (state_of1 s1) else none;
      state2 = if not same then some (state_of2 s2) else none;
    })

  -- The `match` on the two statuses; `none` goes on with the loop.
  abbrev pub judge :
      String → String → Status → Status → Source1 → Source2 → Outcome Failure (Option DiffReport)
  judge name1 name2 (running dr1) (running dr2) s1 s2 = ok (
      if not (compare (combine dr1 dr2) (state_of1 s1) (state_of2 s2))
      then some (report_difference name1 name2 s1 s2)
      else none)
  judge name1 name2 status1 status2 s1 s2 = do
    report ← report_exit name1 name2 (get_exit_code status1) (get_exit_code status2) s1 s2
    ok (some report)

  -- The loop, at most `fuel` rounds of it; `none` means that the fuel ran out.
  unfoldable pub loop :
      String → String → ℕ → Source1 → Source2 → Outcome Failure (Option DiffReport)
  unfolding get_exit_code
  loop name1 name2 zero s1 s2 = ok none
  loop name1 name2 (suc fuel) s1 s2 = do
    (status1, s1') ← diff_step1 s1
    (status2, s2') ← diff_step2 s2
    verdict ← judge name1 name2 status1 status2 s1' s2'
    elim verdict [ some report ↦ ok (some report) | none ↦ loop name1 name2 fuel s1' s2' ]

  unfoldable pub run_diff : ℕ → Source1 → Source2 → ℕ → Outcome Failure (Option DiffReport)
  unfolding loop
  run_diff fuel s1 s2 reset_pc = do
    let name1 = description1 s1
    let name2 = description2 s2
    s1' ← diff_reset1 s1 reset_pc
    s2' ← diff_reset2 s2 reset_pc
    loop name1 name2 fuel s1' s2'
