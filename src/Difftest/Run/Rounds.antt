-- ===== src/Difftest/Run/Rounds.antt =====
-- One round of the loop of `run_diff`.
use pokedex.Prelude.{
  ℕ, suc, ◌≡◌, refl, ◌⊎◌, true, false, ◌||◌, Option, none, some, String, arith, Outcome, ok, err,
  panic, ◌>>=◌,
}
use pokedex.Difftest.Replay.{DiffRecord, combine, compare}
use pokedex.Difftest.Backend.{Failure, Status, running, exit, get_exit_code, DiffBackend}
use pokedex.Difftest.Run.{
  SamePolicy, is_same, is_some, DiffReport, report_difference, report_exit, judge, loop, run_diff,
}

some-eq-ok :
    {E A : Type 0} (m : Outcome E A) {v : Option A}
    → (m >>= λ a. ok (some a)) ≡ ok v
    → (a : A) × (v ≡ some a) × (m ≡ ok a)
some-eq-ok (ok a) h = (a, cc, refl)
some-eq-ok (err e) h = cc
some-eq-ok panic h = cc

module _ (b1 b2 : DiffBackend) (policy : SamePolicy) (name1 name2 : String) where
  pub report_exit-eq-ok :
      (e1 e2 : Option ℕ) (s1 : b1.Source) (s2 : b2.Source) {report : DiffReport}
      → report_exit b1 b2 policy name1 name2 e1 e2 s1 s2 ≡ ok report
      → (report.exit1 ≡ e1) × (report.exit2 ≡ e2) × (is_same policy e1 e2 ≡ ok report.is_same)
  report_exit-eq-ok e1 e2 s1 s2 h = ground arith

  -- Where one side has exited, the round ends the loop.
  pub judge_exit :
      (status1 status2 : Status) (s1 : b1.Source) (s2 : b2.Source) {v : Option DiffReport}
      → (is_some (get_exit_code status1) || is_some (get_exit_code status2)) ≡ true
      → judge b1 b2 policy name1 name2 status1 status2 s1 s2 ≡ ok v
      → (report : DiffReport) × (v ≡ some report)
        × (report_exit b1 b2 policy name1 name2
              (get_exit_code status1)
              (get_exit_code status2)
              s1
              s2
            ≡ ok report)
  unfolding get_exit_code
  judge_exit (running d1) (running d2) s1 s2 on h = cc
  judge_exit (running d1) (exit c2) s1 s2 on h =
      some-eq-ok (report_exit b1 b2 policy name1 name2 none (some c2) s1 s2) h
  judge_exit (exit c1) status2 s1 s2 on h =
      some-eq-ok (report_exit b1 b2 policy name1 name2 (some c1) (get_exit_code status2) s1 s2) h

  pub judge_running :
      (d1 d2 : DiffRecord) (s1 : b1.Source) (s2 : b2.Source) {v : Option DiffReport}
      → judge b1 b2 policy name1 name2 (running d1) (running d2) s1 s2 ≡ ok v
      → ((v ≡ none) × (compare (combine d1 d2) (b1.state s1) (b2.state s2) ≡ true))
        ⊎ ((v ≡ some (report_difference b1 b2 policy name1 name2 s1 s2))
            × (compare (combine d1 d2) (b1.state s1) (b2.state s2) ≡ false))
  judge_running d1 d2 s1 s2 h = ground arith

  -- What the loop does with the answer of a round.
  abbrev pub resume :
      ℕ → b1.Source → b2.Source → Option DiffReport → Outcome Failure (Option DiffReport)
  resume fuel s1 s2 verdict = elim verdict [
    | some report ↦ ok (some report)
    | none ↦ loop b1 b2 policy name1 name2 fuel s1 s2
  ]

  -- The rest of a round, once both sides have stepped.
  abbrev pub after_steps :
      ℕ → Status → Status → b1.Source → b2.Source → Outcome Failure (Option DiffReport)
  after_steps fuel status1 status2 s1 s2 = do
    verdict ← judge b1 b2 policy name1 name2 status1 status2 s1 s2
    resume fuel s1 s2 verdict

  pub loop-suc :
      (fuel : ℕ) (s1 : b1.Source) (s2 : b2.Source)
      → loop b1 b2 policy name1 name2 (suc fuel) s1 s2
        ≡ (b1.diff_step s1 >>= λ p. b2.diff_step s2 >>= λ q. after_steps fuel p.0 q.0 p.1 q.1)
  unfolding loop
  loop-suc fuel s1 s2 = refl

pub run_diff_lem :
    (b1 b2 : DiffBackend) (policy : SamePolicy) (fuel : ℕ) (s1 : b1.Source) (s2 : b2.Source)
    (reset_pc : ℕ)
    → run_diff b1 b2 policy fuel s1 s2 reset_pc ≡ (
        b1.diff_reset s1 reset_pc >>= λ t1.
        b2.diff_reset s2 reset_pc
        >>= loop b1 b2 policy (b1.description s1) (b2.description s2) fuel t1)
unfolding run_diff
run_diff_lem b1 b2 policy fuel s1 s2 reset_pc = refl
