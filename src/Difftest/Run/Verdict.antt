-- ===== src/Difftest/Run/Verdict.antt =====
-- What a report of `run_diff` says of the two sources.
use pokedex.Prelude.{
  ℕ, zero, suc, ◌≡◌, refl, inl, inr, true, false, ◌||◌, none, some, String, ok, ◌>>=◌, >>=-eq-ok,
}
use pokedex.Difftest.Replay.{DiffRecord}
use pokedex.Difftest.Replay.Frame.{IsShaped}
use pokedex.Difftest.Replay.Compare.{Agree, compare_iff}
use pokedex.Difftest.Notes.{pretty_print_diff}
use pokedex.Difftest.Backend.{Status, running, exit, get_exit_code, DiffBackend, IsLawful}
use pokedex.Difftest.Run.{
  SamePolicy, is_same, is_some, DiffReport, report_difference, report_exit, judge, loop, run_diff,
}
use pokedex.Difftest.Run.Rounds.{
  report_exit-eq-ok, judge_exit, judge_running, resume, after_steps, loop-suc, run_diff_lem,
}

-- The report is right about the sources from here on: they agree after each pair of steps until
-- they differ, which the report says, or until one side exits, when the report has the exit codes
-- and the answer of the policy.
pub data Verdict (b1 b2 : DiffBackend) (policy : SamePolicy) (report : DiffReport)
    : b1.Source → b2.Source → Type 0 where
  differs :
      {s1 s1' : b1.Source} {s2 s2' : b2.Source} {d1 d2 : DiffRecord}
      → b1.diff_step s1 ≡ ok (running d1, s1')
      → b2.diff_step s2 ≡ ok (running d2, s2')
      → ¬ (Agree (b1.state s1') (b2.state s2'))
      → report.is_same ≡ false
      → (report.exit1 ≡ none) × (report.exit2 ≡ none)
      → report.diff_notes ≡ pretty_print_diff (b1.state s1') (b2.state s2')
      → Verdict b1 b2 policy report s1 s2
  ends :
      {s1 s1' : b1.Source} {s2 s2' : b2.Source} {status1 status2 : Status}
      → b1.diff_step s1 ≡ ok (status1, s1')
      → b2.diff_step s2 ≡ ok (status2, s2')
      → (report.exit1 ≡ get_exit_code status1) × (report.exit2 ≡ get_exit_code status2)
      → is_same policy report.exit1 report.exit2 ≡ ok report.is_same
      → Verdict b1 b2 policy report s1 s2
  agrees :
      {s1 s1' : b1.Source} {s2 s2' : b2.Source} {d1 d2 : DiffRecord}
      → b1.diff_step s1 ≡ ok (running d1, s1')
      → b2.diff_step s2 ≡ ok (running d2, s2')
      → Agree (b1.state s1') (b2.state s2')
      → Verdict b1 b2 policy report s1' s2'
      → Verdict b1 b2 policy report s1 s2

module _ (b1 b2 : DiffBackend) (policy : SamePolicy) (name1 name2 : String) where
  ends-Verdict :
      {status1 status2 : Status} {s1 s1' : b1.Source} {s2 s2' : b2.Source} {report : DiffReport}
      → b1.diff_step s1 ≡ ok (status1, s1')
      → b2.diff_step s2 ≡ ok (status2, s2')
      → report_exit b1 b2 policy name1 name2 (get_exit_code status1) (get_exit_code status2) s1' s2'
        ≡ ok report
      → Verdict b1 b2 policy report s1 s2
  ends-Verdict {status1} {status2} {s1' = s1'} {s2' = s2'} step1 step2 h =
      let (e1, e2, same) =
        report_exit-eq-ok b1 b2 policy name1 name2 (get_exit_code status1) (get_exit_code status2)
          s1' s2' h in
      ends step1 step2 (e1, e2) (rw (e1, e2) same)

module _ (b1 b2 : DiffBackend) {r1 : b1.Source → ℕ} {r2 : b2.Source → ℕ} (l1 : IsLawful b1 r1)
    (l2 : IsLawful b2 r2) (policy : SamePolicy) (name1 name2 : String) where
  abbrev Judges : DiffReport → ℕ → b1.Source → b2.Source → Type 0
  Judges report fuel s1 s2 =
      IsShaped (b1.state s1)
      → IsShaped (b2.state s2)
      → Agree (b1.state s1) (b2.state s2)
      → loop b1 b2 policy name1 name2 fuel s1 s2 ≡ ok (some report)
      → Verdict b1 b2 policy report s1 s2

  module _ {s1 s1' : b1.Source} {s2 s2' : b2.Source} (shaped1 : IsShaped (b1.state s1))
      (shaped2 : IsShaped (b2.state s2)) (start : Agree (b1.state s1) (b2.state s2))
      (report : DiffReport) (fuel : ℕ) where
    after_running :
        {d1 d2 : DiffRecord}
        → b1.diff_step s1 ≡ ok (running d1, s1')
        → b2.diff_step s2 ≡ ok (running d2, s2')
        → Judges report fuel s1' s2'
        → after_steps b1 b2 policy name1 name2 fuel (running d1) (running d2) s1' s2'
          ≡ ok (some report)
        → Verdict b1 b2 policy report s1 s2
    after_running {d1} {d2} step1 step2 ih h =
        let r1 = l1.step_replays s1 step1 shaped1 in
        let r2 = l2.step_replays s2 step2 shaped2 in
        let (v, judged, rest) =
          >>=-eq-ok (judge b1 b2 policy name1 name2 (running d1) (running d2) s1' s2')
            (resume b1 b2 policy name1 name2 fuel s1' s2') h in
        elim (judge_running b1 b2 policy name1 name2 d1 d2 s1' s2' judged) [
          | inl (more, same) ↦
              let agree = (compare_iff r1 r2 start).0 same in
              agrees step1 step2 agree (ih r1.shaped r2.shaped agree (rw more at rest))
          | inr (done, other) ↦
              let is_report : report_difference b1 b2 policy name1 name2 s1' s2' ≡ report =
                cc (rw done at rest) in
              rw (← is_report) (
                differs step1 step2 (λ a. cc ((compare_iff r1 r2 start).1 a)) refl (refl, refl)
                  refl)
        ]

    after_exit :
        {status1 status2 : Status}
        → b1.diff_step s1 ≡ ok (status1, s1')
        → b2.diff_step s2 ≡ ok (status2, s2')
        → (is_some (get_exit_code status1) || is_some (get_exit_code status2)) ≡ true
        → after_steps b1 b2 policy name1 name2 fuel status1 status2 s1' s2' ≡ ok (some report)
        → Verdict b1 b2 policy report s1 s2
    after_exit {status1} {status2} step1 step2 on h =
        let (v, judged, rest) =
          >>=-eq-ok (judge b1 b2 policy name1 name2 status1 status2 s1' s2')
            (resume b1 b2 policy name1 name2 fuel s1' s2') h in
        let (report', is_some', reported) =
          judge_exit b1 b2 policy name1 name2 status1 status2 s1' s2' on judged in
        let same : report' ≡ report = cc (rw is_some' at rest) in
        ends-Verdict b1 b2 policy name1 name2 step1 step2 (rw same at reported)

    after_steps-Verdict :
        (status1 status2 : Status)
        → b1.diff_step s1 ≡ ok (status1, s1')
        → b2.diff_step s2 ≡ ok (status2, s2')
        → Judges report fuel s1' s2'
        → after_steps b1 b2 policy name1 name2 fuel status1 status2 s1' s2' ≡ ok (some report)
        → Verdict b1 b2 policy report s1 s2
    unfolding get_exit_code
    after_steps-Verdict (running d1) (running d2) step1 step2 ih h = after_running step1 step2 ih h
    after_steps-Verdict (running d1) (exit c2) step1 step2 ih h = after_exit step1 step2 refl h
    after_steps-Verdict (exit c1) status2 step1 step2 ih h = after_exit step1 step2 refl h

  loop-Verdict :
      (report : DiffReport) (fuel : ℕ) (s1 : b1.Source) (s2 : b2.Source) → Judges report fuel s1 s2
  loop-Verdict report zero s1 s2 shaped1 shaped2 start h = unfold loop in cc h
  loop-Verdict report (suc fuel) s1 s2 shaped1 shaped2 start h =
      let ((status1, s1'), step1, h1) =
        >>=-eq-ok (b1.diff_step s1)
          (λ (p : Status × b1.Source). b2.diff_step s2 >>= λ (q : Status × b2.Source).
            after_steps b1 b2 policy name1 name2 fuel p.0 q.0 p.1 q.1)
          (rw (loop-suc b1 b2 policy name1 name2 fuel s1 s2) at h) in
      let ((status2, s2'), step2, h2) =
        >>=-eq-ok (b2.diff_step s2)
          (λ (q : Status × b2.Source).
            after_steps b1 b2 policy name1 name2 fuel status1 q.0 s1' q.1)
          h1 in
      after_steps-Verdict shaped1 shaped2 start report fuel status1 status2 step1 step2
        (loop-Verdict report fuel s1' s2') h2

module _ (b1 b2 : DiffBackend) {r1 : b1.Source → ℕ} {r2 : b2.Source → ℕ} (l1 : IsLawful b1 r1)
    (l2 : IsLawful b2 r2) (policy : SamePolicy) where
  -- For two lawful backends and sources whose states are of full size and agree, a report that
  -- `run_diff` returns is right: both resets succeeded, the states agree after each pair of steps,
  -- and the run ends where they differ or where a side has exited, as the report says.
  pub run_diff-Verdict :
      (fuel : ℕ) (s1 : b1.Source) (s2 : b2.Source) (reset_pc : ℕ) {report : DiffReport}
      → IsShaped (b1.state s1)
      → IsShaped (b2.state s2)
      → Agree (b1.state s1) (b2.state s2)
      → run_diff b1 b2 policy fuel s1 s2 reset_pc ≡ ok (some report)
      → (s1' : b1.Source) × (s2' : b2.Source) × (b1.diff_reset s1 reset_pc ≡ ok s1')
        × (b2.diff_reset s2 reset_pc ≡ ok s2')
        × Verdict b1 b2 policy report s1' s2'
  run_diff-Verdict fuel s1 s2 reset_pc {report} shaped1 shaped2 start h =
      let name1 = b1.description s1 in
      let name2 = b2.description s2 in
      let (s1', reset1, h1) =
        >>=-eq-ok (b1.diff_reset s1 reset_pc)
          (λ t1. b2.diff_reset s2 reset_pc >>= loop b1 b2 policy name1 name2 fuel t1)
          (rw run_diff_lem at h) in
      let (s2', reset2, h2) =
        >>=-eq-ok (b2.diff_reset s2 reset_pc) (loop b1 b2 policy name1 name2 fuel s1') h1 in
      let kept1 = l1.reset_keeps s1 reset_pc reset1 in
      let kept2 = l2.reset_keeps s2 reset_pc reset2 in
      let verdict =
        loop-Verdict b1 b2 l1 l2 policy name1 name2 report fuel s1' s2' (rw kept1 shaped1)
          (rw kept2 shaped2) (rw (kept1, kept2) start) h2 in
      (s1', s2', reset1, reset2, verdict)
