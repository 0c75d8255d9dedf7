-- ===== src/Pokedex/Tracer/RoundTrip.antt =====
-- From a step of the core to the log, and back to a state in the difftest.
use pokedex.Prelude.{
  ℕ, ◌^◌, ◌<◌, ◌≡◌, sym, ap, ◌∙◌, inl, inr, Option-cases, List, [], ◌∷◌, if◌then◌else◌, Outcome, ok,
  assert, >>=-eq-ok, get_or,
}
use pokedex.Common.{CommitLog, PokedexLog}
use pokedex.Util.Bits.{bit}
use pokedex.Bus.Memory.{BusError}
use pokedex.Difftest.Replay.{CpuState, DiffRecord}
use pokedex.Difftest.Replay.Frame.{IsShaped}
use pokedex.Difftest.PokedexLog.{update_state}
use pokedex.Difftest.PokedexLog.Effects.{update_state-after}
use pokedex.Model.{ModelExport, StepDetail, is_empty_changes, read_xreg, read_freg}
use pokedex.Pokedex.Tracer.{state_writes, trace_step}
use pokedex.Pokedex.Tracer.Replay.{gpr-after, fpr-after}

commit_injective :
    {c c' : CommitLog}
    → ◌≡◌ {A = Outcome BusError (List PokedexLog)}
        (ok (PokedexLog.commit c ∷ []))
        (ok (PokedexLog.commit c' ∷ []))
    → c ≡ c'
commit_injective h = cc

module _ (m : ModelExport) where
  trace_step-eq-ok :
      (detail : StepDetail m) {c : CommitLog}
      → trace_step m {E = BusError} detail ≡ ok (PokedexLog.commit c ∷ [])
      → (c.pc ≡ detail.pc) × (state_writes m {E = BusError} detail.changes ≡ ok c.states_changed)
  unfolding trace_step
  trace_step-eq-ok detail {c} h = elim (Option-cases detail.inst) [
    | inl missing ↦
        let (_, _, wrong) =
          >>=-eq-ok (assert (is_empty_changes m detail.changes)) (λ _. ok [])
            (rw (missing, trace_step) at h) in
        cc
    | inr (inst, there) ↦
        let (writes, made, is_line) =
          >>=-eq-ok (state_writes m detail.changes) _ (rw (there, trace_step) at h) in
        let same = commit_injective is_line in
        (
          sym (ap (λ (k : CommitLog). k.pc) same),
          made ∙ ap (λ (k : CommitLog). ok k.states_changed) same,
        )
  ]

  -- If a traced step is logged as a commit, its masks are words, the difftest replays the commit on
  -- a state of full size, and a register index is below 32, then the replayed state has the program
  -- counter of the step, and the integer and the floating-point register at the index have the
  -- value of the core where the step's mask has the bit, and their old value elsewhere.
  pub update_state-trace_step :
      (detail : StepDetail m) (x : CpuState) (i : ℕ) {c : CommitLog} {x' : CpuState}
      {d : DiffRecord}
      → trace_step m {E = BusError} detail ≡ ok (PokedexLog.commit c ∷ [])
      → detail.changes.tb.xreg_mask < 2 ^ 32
      → detail.changes.tb.freg_mask < 2 ^ 32
      → IsShaped x
      → update_state x c ≡ ok (x', d)
      → i < 32
      → (x'.pc ≡ detail.pc)
        × (get_or x'.gpr i 0 ≡ (
            if bit i detail.changes.tb.xreg_mask
            then read_xreg m detail.changes.core i
            else get_or x.gpr i 0))
        × (get_or x'.fpr i 0 ≡ (
            if bit i detail.changes.tb.freg_mask
            then read_freg m detail.changes.core i
            else get_or x.fpr i 0))
  update_state-trace_step detail x i {c} {x'} logged xs fs shaped replayed lt =
      let (pc, made) = trace_step-eq-ok detail logged in
      let (gprs, fprs, pcs) = update_state-after x c replayed in
      (
        pcs ∙ pc,
        ap (λ rs. get_or rs i 0) gprs
            ∙ gpr-after m detail.changes made x.gpr i xs lt (rw shaped.gprs lt),
        ap (λ rs. get_or rs i 0) fprs
            ∙ fpr-after m detail.changes made x.fpr i fs lt (rw shaped.fprs lt),
      )
