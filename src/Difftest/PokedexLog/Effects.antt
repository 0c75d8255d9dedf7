-- ===== src/Difftest/PokedexLog/Effects.antt =====
-- What a replay of writes leaves in the scalar registers and the program counter.
use pokedex.Prelude.{
  ℕ, ◌≡◌, refl, ap, ◌∙◌, Option, none, some, List, [], ◌∷◌, String, arith, ok, >>=-eq-ok, or_panic,
  or_panic-eq-ok, set,
}
use pokedex.Common.{StateWrite, CommitLog}
use pokedex.Difftest.Csr
use pokedex.Difftest.Replay.{
  CpuState, DiffRecord, no_diff, write_gpr, write_fpr, write_vreg, write_csr,
}
use pokedex.Difftest.PokedexLog.{replay_write, replay_writes, update_state}

-- the integer or floating-point register that a write sets
abbrev pub gpr_of : StateWrite → Option (ℕ × ℕ)
gpr_of (StateWrite.xrf rd value) = some (rd, value)
gpr_of _ = none

abbrev pub fpr_of : StateWrite → Option (ℕ × ℕ)
fpr_of (StateWrite.frf rd value) = some (rd, value)
fpr_of _ = none

abbrev pub set_some : Option (ℕ × ℕ) → List ℕ → List ℕ
set_some none regs = regs
set_some (some (rd, value)) regs = set regs rd value

-- The registers after the writes that `sel` selects.
abbrev pub after : (StateWrite → Option (ℕ × ℕ)) → List StateWrite → List ℕ → List ℕ
after sel [] regs = regs
after sel (w ∷ ws) regs = after sel ws (set_some (sel w) regs)

record Effect (w : StateWrite) (x x' : CpuState) : Type 0 where
  pub gprs : x'.gpr ≡ set_some (gpr_of w) x.gpr
  pub fprs : x'.fpr ≡ set_some (fpr_of w) x.fpr
  pub pcs : x'.pc ≡ x.pc

write_csr-Effect :
    (x : CpuState) (name : String) (value : ℕ) {x' : CpuState}
    → write_csr x name value ≡ ok x'
    → Effect (StateWrite.csr name value) x x'
unfolding write_csr
write_csr-Effect x name value {x'} h =
    let (c, _, e) = >>=-eq-ok (Csr.write x.csr name value) (λ c. ok (record x { csr = c })) h in
    let same : record x { csr = c } ≡ x' = cc in
    rw (← same) (record { gprs = refl; fprs = refl; pcs = refl })

replay_write-Effect :
    (w : StateWrite) (x : CpuState) (d : DiffRecord) {x' : CpuState} {d' : DiffRecord}
    → replay_write w x d ≡ ok (x', d')
    → Effect w x x'
unfolding replay_write write_gpr write_fpr write_vreg
replay_write-Effect (StateWrite.xrf rd value) x d h = ground arith
replay_write-Effect (StateWrite.frf rd value) x d h = ground arith
replay_write-Effect (StateWrite.vrf rd value) x d h = ground arith
replay_write-Effect (StateWrite.csr name value) x d {x'} h =
    let (x₁, wrote, e) = >>=-eq-ok (or_panic (write_csr x name value)) (λ x₁. ok (x₁, d)) h in
    let same : x₁ ≡ x' = cc in
    rw (← same) (write_csr-Effect x name value (or_panic-eq-ok (write_csr x name value) wrote))

record Effects (ws : List StateWrite) (x x' : CpuState) : Type 0 where
  pub gprs : x'.gpr ≡ after gpr_of ws x.gpr
  pub fprs : x'.fpr ≡ after fpr_of ws x.fpr
  pub pcs : x'.pc ≡ x.pc

replay_writes-Effects :
    (ws : List StateWrite) (x : CpuState) (d : DiffRecord) {x' : CpuState} {d' : DiffRecord}
    → replay_writes ws x d ≡ ok (x', d')
    → Effects ws x x'
unfolding replay_writes
replay_writes-Effects [] x d {x'} h =
    let same : x ≡ x' = cc in rw (← same) (record { gprs = refl; fprs = refl; pcs = refl })
replay_writes-Effects (w ∷ ws) x d {x'} h =
    let ((x₁, d₁), first, rest) =
      >>=-eq-ok (replay_write w x d) (λ (x₁, d₁). replay_writes ws x₁ d₁) h in
    let one = replay_write-Effect w x d first in
    let more = replay_writes-Effects ws x₁ d₁ rest in
    record {
      gprs = more.gprs ∙ ap (after gpr_of ws) one.gprs;
      fprs = more.fprs ∙ ap (after fpr_of ws) one.fprs;
      pcs = more.pcs ∙ one.pcs;
    }

-- The registers and the program counter after the replay of a commit.
pub update_state-after :
    (x : CpuState) (commit : CommitLog) {x' : CpuState} {d : DiffRecord}
    → update_state x commit ≡ ok (x', d)
    → (x'.gpr ≡ after gpr_of commit.states_changed x.gpr)
      × (x'.fpr ≡ after fpr_of commit.states_changed x.fpr)
      × (x'.pc ≡ commit.pc)
unfolding update_state
update_state-after x commit h =
    let all = replay_writes-Effects commit.states_changed (record x { pc = commit.pc }) no_diff h in
    (all.gprs, all.fprs, all.pcs)
