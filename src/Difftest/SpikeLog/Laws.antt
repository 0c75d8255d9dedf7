-- ===== src/Difftest/SpikeLog/Laws.antt =====
-- The Spike log backend meets the laws of the comparison.
use pokedex.Prelude.{
  ℕ, ◌+◌, ◌-◌, ◌≡◌, some, List, [], ◌∷◌, arith, ok, >>=-eq-ok, or_panic, or_panic-eq-ok, length,
  get_elem?, get_elem?-lt, as_u32,
}
use pokedex.Difftest.Replay.{CpuState, DiffRecord, write_csr}
use pokedex.Difftest.Replay.Frame.{
  IsShaped, Replayed, Replayed-pc, write_gpr-Replayed, write_fpr-Replayed, write_vreg-Replayed,
  write_csr-Replayed,
}
use pokedex.Difftest.Backend.{running, exit, IsLawful}
use pokedex.Difftest.SpikeLog.{
  Modification, write_xreg, write_freg, write_csr_reg, write_vec_ctx, write_vreg_bytes, load, store,
  Commit, from_logs, SpikeLogBackend, replay_change, replay_changes, update_cpu_state, diff_step,
  spike_backend,
}
use pokedex.Difftest.SpikeLog.Reset.{diff_reset-Skips}

module _ {x₀ : CpuState} where
  replay_change-Replayed :
      (w : Modification) {x x' : CpuState} {d d' : DiffRecord}
      → Replayed x₀ d x
      → replay_change w x d ≡ ok (x', d')
      → Replayed x₀ d' x'
  unfolding replay_change
  replay_change-Replayed (write_xreg rd bits) r e = write_gpr-Replayed r rd (as_u32 bits) e
  replay_change-Replayed (write_freg rd bits) r e = write_fpr-Replayed r rd (as_u32 bits) e
  replay_change-Replayed (write_vreg_bytes rd bytes) r e = write_vreg-Replayed r rd bytes e
  replay_change-Replayed (write_csr_reg rd name bits) {x = x} {x' = x'} {d = d} {d' = d'} r e =
      let (y, wrote, same) =
        >>=-eq-ok (or_panic (write_csr x name (as_u32 bits))) (λ y. ok (y, d)) e in
      let kept =
        write_csr-Replayed r name (as_u32 bits)
          (or_panic-eq-ok (write_csr x name (as_u32 bits)) wrote) in
      let same_state : y ≡ x' = cc in
      let same_record : d ≡ d' = cc in rw (← same_state, ← same_record) kept
  replay_change-Replayed (write_vec_ctx _ _ _ _) {x = x} {x' = x'} {d = d} {d' = d'} r e =
      let same_state : x ≡ x' = cc in
      let same_record : d ≡ d' = cc in rw (← same_state, ← same_record) r
  replay_change-Replayed (load _) {x = x} {x' = x'} {d = d} {d' = d'} r e =
      let same_state : x ≡ x' = cc in
      let same_record : d ≡ d' = cc in rw (← same_state, ← same_record) r
  replay_change-Replayed (store _ _) {x = x} {x' = x'} {d = d} {d' = d'} r e =
      let same_state : x ≡ x' = cc in
      let same_record : d ≡ d' = cc in rw (← same_state, ← same_record) r

  replay_changes-Replayed :
      (ws : List Modification) {x x' : CpuState} {d d' : DiffRecord}
      → Replayed x₀ d x
      → replay_changes ws x d ≡ ok (x', d')
      → Replayed x₀ d' x'
  unfolding replay_changes
  replay_changes-Replayed [] {x = x} {x' = x'} {d = d} {d' = d'} r e =
      let same_state : x ≡ x' = cc in
      let same_record : d ≡ d' = cc in rw (← same_state, ← same_record) r
  replay_changes-Replayed (w ∷ ws) {x = x} {d = d} r e =
      let ((y, dy), first, rest) =
        >>=-eq-ok (replay_change w x d) (λ (z : CpuState × DiffRecord). replay_changes ws z.0 z.1)
          e in
      replay_changes-Replayed ws (replay_change-Replayed w r first) rest

-- `update_cpu_state` replays a commit on a fresh record.
pub update_cpu_state-Replayed :
    (x : CpuState) (c : Commit) {x' : CpuState} {d : DiffRecord}
    → IsShaped x
    → update_cpu_state x c ≡ ok (x', d)
    → Replayed x d x'
unfolding update_cpu_state
update_cpu_state-Replayed x c s e =
    replay_changes-Replayed c.state_changes (Replayed-pc x (as_u32 c.pc) s) e

abbrev pub remaining : SpikeLogBackend → ℕ
remaining b = length b.logs - b.index

diff_step-running :
    (b : SpikeLogBackend) {d : DiffRecord} {b' : SpikeLogBackend}
    → diff_step b ≡ ok (running d, b')
    → (c : Commit) × (get_elem? b.logs b.index ≡ some c)
      × (update_cpu_state b.state c ≡ ok (b'.state, d))
      × (b'.logs ≡ b.logs)
      × (b'.index ≡ b.index + 1)
unfolding diff_step
diff_step-running b e = ground arith

diff_step-exit :
    (b : SpikeLogBackend) {code : ℕ} {b' : SpikeLogBackend}
    → diff_step b ≡ ok (exit code, b')
    → b' ≡ b
unfolding diff_step
diff_step-exit b e = ground arith

-- The Spike log backend is lawful: a reset keeps the state and does not go back, a step that runs
-- replays writes with their record kept and consumes a commit, and an exit changes nothing.
pub spike_backend-IsLawful : IsLawful spike_backend remaining
spike_backend-IsLawful = record {
  reset_keeps = λ b pc e. (diff_reset-Skips b pc e).state;
  reset_advances = λ b pc e.
      let skips = diff_reset-Skips b pc e in
      let further = skips.first.0 in rw skips.logs (omega arith);
  step_replays = λ b e s.
      let (c, _, updated, _, _) = diff_step-running b e in
      update_cpu_state-Replayed b.state c s updated;
  step_advances = λ b e.
      let (c, here, _, logs, index) = diff_step-running b e in
      rw (logs, index) (omega (arith, get_elem?-lt b.logs b.index here));
  exit_keeps = diff_step-exit;
}

pub remaining-from_logs : (logs : List Commit) → remaining (from_logs logs) ≡ length logs
unfolding from_logs
remaining-from_logs logs = omega arith
