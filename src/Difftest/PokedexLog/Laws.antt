-- ===== src/Difftest/PokedexLog/Laws.antt =====
-- The pokedex log backend meets the laws of the comparison.
use pokedex.Prelude.{
  ℕ, ◌+◌, ◌-◌, ◌≡◌, some, List, [], ◌∷◌, arith, ok, >>=-eq-ok, or_panic, or_panic-eq-ok, length,
  get_elem?, get_elem?-lt,
}
use pokedex.Common.{StateWrite, CommitLog, PokedexLog}
use pokedex.Difftest.Replay.{CpuState, DiffRecord, write_csr}
use pokedex.Difftest.Replay.Frame.{
  IsShaped, Replayed, Replayed-pc, write_gpr-Replayed, write_fpr-Replayed, write_vreg-Replayed,
  write_csr-Replayed,
}
use pokedex.Difftest.Backend.{running, exit, IsLawful}
use pokedex.Difftest.PokedexLog.{
  PokedexLogBackend, replay_write, replay_writes, update_state, diff_reset, diff_step,
  pokedex_backend,
}

module _ {x₀ : CpuState} where
  replay_write-Replayed :
      (w : StateWrite) {x x' : CpuState} {d d' : DiffRecord}
      → Replayed x₀ d x
      → replay_write w x d ≡ ok (x', d')
      → Replayed x₀ d' x'
  unfolding replay_write
  replay_write-Replayed (StateWrite.xrf rd value) r e = write_gpr-Replayed r rd value e
  replay_write-Replayed (StateWrite.frf rd value) r e = write_fpr-Replayed r rd value e
  replay_write-Replayed (StateWrite.vrf rd value) r e = write_vreg-Replayed r rd value e
  replay_write-Replayed (StateWrite.csr name value) {x = x} {x' = x'} {d = d} {d' = d'} r e =
      let (y, wrote, same) = >>=-eq-ok (or_panic (write_csr x name value)) (λ y. ok (y, d)) e in
      let kept = write_csr-Replayed r name value (or_panic-eq-ok (write_csr x name value) wrote) in
      let same_state : y ≡ x' = cc in
      let same_record : d ≡ d' = cc in rw (← same_state, ← same_record) kept

  replay_writes-Replayed :
      (ws : List StateWrite) {x x' : CpuState} {d d' : DiffRecord}
      → Replayed x₀ d x
      → replay_writes ws x d ≡ ok (x', d')
      → Replayed x₀ d' x'
  unfolding replay_writes
  replay_writes-Replayed [] {x = x} {x' = x'} {d = d} {d' = d'} r e =
      let same_state : x ≡ x' = cc in
      let same_record : d ≡ d' = cc in rw (← same_state, ← same_record) r
  replay_writes-Replayed (w ∷ ws) {x = x} {d = d} r e =
      let ((y, dy), first, rest) =
        >>=-eq-ok (replay_write w x d) (λ (z : CpuState × DiffRecord). replay_writes ws z.0 z.1)
          e in
      replay_writes-Replayed ws (replay_write-Replayed w r first) rest

-- `update_state` replays a commit on a fresh record.
pub update_state-Replayed :
    (x : CpuState) (c : CommitLog) {x' : CpuState} {d : DiffRecord}
    → IsShaped x
    → update_state x c ≡ ok (x', d)
    → Replayed x d x'
unfolding update_state
update_state-Replayed x c s e = replay_writes-Replayed c.states_changed (Replayed-pc x c.pc s) e

abbrev pub remaining : PokedexLogBackend → ℕ
remaining b = length b.logs - b.index

state-diff_reset :
    (b : PokedexLogBackend) (pc : ℕ) {b' : PokedexLogBackend}
    → diff_reset b pc ≡ ok b'
    → b'.state ≡ b.state
unfolding diff_reset
state-diff_reset b pc e = ground arith

diff_reset-eq-ok :
    (b : PokedexLogBackend) (pc : ℕ) {b' : PokedexLogBackend}
    → diff_reset b pc ≡ ok b'
    → (b'.logs ≡ b.logs) × (b'.index ≡ b.index + 1)
unfolding diff_reset
diff_reset-eq-ok b pc e = ground arith

diff_step-running :
    (b : PokedexLogBackend) {d : DiffRecord} {b' : PokedexLogBackend}
    → diff_step b ≡ ok (running d, b')
    → (c : CommitLog) × (get_elem? b.logs b.index ≡ some (PokedexLog.commit c))
      × (update_state b.state c ≡ ok (b'.state, d))
      × (b'.logs ≡ b.logs)
      × (b'.index ≡ b.index + 1)
unfolding diff_step
diff_step-running b e = ground arith

diff_step-exit :
    (b : PokedexLogBackend) {code : ℕ} {b' : PokedexLogBackend}
    → diff_step b ≡ ok (exit code, b')
    → b' ≡ b
unfolding diff_step
diff_step-exit b e = ground arith

-- The pokedex log backend is lawful: a reset keeps the state and does not go back, a step that
-- runs replays writes with their record kept and consumes an entry of the log, and an exit changes
-- nothing.
pub pokedex_backend-IsLawful : IsLawful pokedex_backend remaining
pokedex_backend-IsLawful = record {
  reset_keeps = state-diff_reset;
  reset_advances =
      λ b pc e. let (logs, index) = diff_reset-eq-ok b pc e in rw (logs, index) (omega arith);
  step_replays = λ b e s.
      let (c, _, updated, _, _) = diff_step-running b e in
      update_state-Replayed b.state c s updated;
  step_advances = λ b e.
      let (c, here, _, logs, index) = diff_step-running b e in
      rw (logs, index) (omega (arith, get_elem?-lt b.logs b.index here));
  exit_keeps = diff_step-exit;
}
