-- ===== src/Difftest/Run/Total.antt =====
-- The loop of `run_diff` ends.
use pokedex.Prelude.{
  ℕ, zero, suc, ◌<◌, ◌≡◌, ◌≢◌, inl, inr, none, some, String, arith, Bool-cases, Outcome, ok, err,
  panic, ◌>>=◌, >>=-eq-ok,
}
use pokedex.Difftest.Replay.{combine, compare}
use pokedex.Difftest.Backend.{Failure, Status, running, exit, get_exit_code, DiffBackend, IsLawful}
use pokedex.Difftest.Run.{SamePolicy, DiffReport, report_exit, loop, run_diff}
use pokedex.Difftest.Run.Rounds.{resume, after_steps, loop-suc, run_diff_lem}

module _ (b1 b2 : DiffBackend) (r1 : b1.Source → ℕ) (l1 : IsLawful b1 r1) (policy : SamePolicy)
    (name1 name2 : String) where
  resume-ne-none :
      (m : Outcome Failure DiffReport) (fuel : ℕ) (s1 : b1.Source) (s2 : b2.Source)
      → ((m >>= λ r. ok (some r)) >>= resume b1 b2 policy name1 name2 fuel s1 s2) ≢ ok none
  resume-ne-none (ok r) fuel s1 s2 h = cc h
  resume-ne-none (err e) fuel s1 s2 h = cc h
  resume-ne-none panic fuel s1 s2 h = cc h

  after_steps-ne-none :
      (fuel : ℕ) (status1 status2 : Status) (s0 s1 : b1.Source) (s2 : b2.Source)
      → b1.diff_step s0 ≡ ok (status1, s1)
      → (r1 s1 < r1 s0 → loop b1 b2 policy name1 name2 fuel s1 s2 ≢ ok none)
      → after_steps b1 b2 policy name1 name2 fuel status1 status2 s1 s2 ≢ ok none
  unfolding get_exit_code
  after_steps-ne-none fuel (running d1) (running d2) s0 s1 s2 step1 ih h =
      elim (Bool-cases (compare (combine d1 d2) (b1.state s1) (b2.state s2))) [
        | inl same ↦ ih (l1.step_advances s0 step1) (rw same at h)
        | inr other ↦ cc (rw other at h)
      ]
  after_steps-ne-none fuel (running d1) (exit c2) s0 s1 s2 step1 ih h =
      resume-ne-none (report_exit b1 b2 policy name1 name2 none (some c2) s1 s2) fuel s1 s2 h
  after_steps-ne-none fuel (exit c1) status2 s0 s1 s2 step1 ih h =
      resume-ne-none (report_exit b1 b2 policy name1 name2 (some c1) (get_exit_code status2) s1 s2)
        fuel s1 s2 h

  -- With more fuel than the first source has steps left, the loop does not run out.
  loop_total :
      (fuel : ℕ) (s1 : b1.Source) (s2 : b2.Source)
      → r1 s1 < fuel
      → loop b1 b2 policy name1 name2 fuel s1 s2 ≢ ok none
  loop_total zero s1 s2 lt h = absurd (omega arith)
  loop_total (suc fuel) s1 s2 lt h =
      let ((status1, s1'), step1, h1) =
        >>=-eq-ok (b1.diff_step s1)
          (λ (p : Status × b1.Source). b2.diff_step s2 >>= λ (q : Status × b2.Source).
            after_steps b1 b2 policy name1 name2 fuel p.0 q.0 p.1 q.1)
          (rw (loop-suc b1 b2 policy name1 name2 fuel s1 s2) at h) in
      let ((status2, s2'), step2, h2) =
        >>=-eq-ok (b2.diff_step s2)
          (λ (q : Status × b2.Source).
            after_steps b1 b2 policy name1 name2 fuel status1 q.0 s1' q.1)
          h1 in
      after_steps-ne-none fuel status1 status2 s1 s1' s2' step1
        (λ less. loop_total fuel s1' s2' (omega arith)) h2

module _ (b1 b2 : DiffBackend) (r1 : b1.Source → ℕ) (l1 : IsLawful b1 r1)
    (policy : SamePolicy) where
  -- If the first backend is lawful and the fuel exceeds the steps that the first source has left,
  -- `run_diff` does not run out of fuel: it gives a report, an error or a panic.
  pub run_diff_total :
      (fuel : ℕ) (s1 : b1.Source) (s2 : b2.Source) (reset_pc : ℕ)
      → r1 s1 < fuel
      → run_diff b1 b2 policy fuel s1 s2 reset_pc ≢ ok none
  run_diff_total fuel s1 s2 reset_pc lt h =
      let name1 = b1.description s1 in
      let name2 = b2.description s2 in
      let (s1', reset1, h1) =
        >>=-eq-ok (b1.diff_reset s1 reset_pc)
          (λ t1. b2.diff_reset s2 reset_pc >>= loop b1 b2 policy name1 name2 fuel t1)
          (rw run_diff_lem at h) in
      let (s2', reset2, h2) =
        >>=-eq-ok (b2.diff_reset s2 reset_pc) (loop b1 b2 policy name1 name2 fuel s1') h1 in
      let fewer = l1.reset_advances s1 reset_pc reset1 in
      loop_total b1 b2 r1 l1 policy name1 name2 fuel s1' s2' (omega arith) h2
