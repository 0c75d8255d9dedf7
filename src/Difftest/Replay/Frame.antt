-- ===== src/Difftest/Replay/Frame.antt =====
-- What a `DiffRecord` knows: a register whose bit is clear has not changed.
use mathlib.Core.Logic.{◌≢◌}
use pokedex.Prelude.{
  ℕ, ◌+◌, ◌*◌, ◌≤◌, ◌<◌, ◌≡◌, refl, ◌∙◌, false, List, String, arith, ok, >>=-eq-ok, length, get_or,
  set, splice, take, drop, length-set, length-splice, length-take, length-drop, get_or-set_ne,
  get_or-splice, get_or-take, get_or-drop, ext-get_or,
}
use pokedex.Util.Bits.{bit}
use pokedex.Util.Bitmap
use pokedex.Util.Bitmap.{Bitmap32}
use pokedex.Util.Bitmap.Sets.{IsWord, set-IsWord, bit-set}
use pokedex.Difftest.Csr
use pokedex.Difftest.Csr.{CsrState}
use pokedex.Difftest.Replay.{
  CpuState, DiffRecord, no_diff, vreg_slice, new, write_gpr, write_fpr, write_vreg, write_csr,
}

-- The sizes of the register files.
pub record IsShaped (x : CpuState) : Type 0 where
  pub gprs : length x.gpr ≡ 32
  pub fprs : length x.fpr ≡ 32
  pub bytes : length x.vregs ≡ 1024

-- The masks are words, and each register outside them is as it was in `x₀`.
pub record Tracks (x₀ : CpuState) (d : DiffRecord) (x : CpuState) : Type 0 where
  pub gpr_word : IsWord d.gpr_write_mask
  pub fpr_word : IsWord d.fpr_write_mask
  pub vreg_word : IsWord d.vreg_write_mask
  pub gpr_kept :
      (i : ℕ) → bit i d.gpr_write_mask.word ≡ false → get_or x.gpr i 0 ≡ get_or x₀.gpr i 0
  pub fpr_kept :
      (i : ℕ) → bit i d.fpr_write_mask.word ≡ false → get_or x.fpr i 0 ≡ get_or x₀.fpr i 0
  pub vreg_kept : (i : ℕ) → bit i d.vreg_write_mask.word ≡ false → vreg_slice x i ≡ vreg_slice x₀ i

pub new-IsShaped : IsShaped new
unfolding new
new-IsShaped = record { gprs = refl; fprs = refl; bytes = refl }

-- The bit of another register is clear after a `set` only if it was clear before.
bit-set_clear :
    (m : Bitmap32) (i j : ℕ)
    → i < 32
    → bit j (Bitmap.set m i).word ≡ false
    → (i ≢ j) × (bit j m.word ≡ false)
bit-set_clear m i j h clear = ground (arith, bit-set m i j h)

slice-splice_ne :
    (xs ys : List ℕ) (i j : ℕ)
    → length ys ≡ 32
    → i < 32
    → length xs ≡ 1024
    → i ≢ j
    → take 32 (drop (j * 32) (splice (i * 32) ys xs)) ≡ take 32 (drop (j * 32) xs)
slice-splice_ne xs ys i j hy hi hx ne =
    ext-get_or _ _ 0
      (omega (
        arith,
        length-take 32 (drop (j * 32) (splice (i * 32) ys xs)),
        length-take 32 (drop (j * 32) xs),
        length-drop (j * 32) (splice (i * 32) ys xs),
        length-drop (j * 32) xs,
        length-splice (i * 32) ys xs (omega arith),
      ))
      (λ k lt. ground (
        arith,
        get_or-take 32 (drop (j * 32) (splice (i * 32) ys xs)) k 0,
        get_or-take 32 (drop (j * 32) xs) k 0,
        get_or-drop (j * 32) (splice (i * 32) ys xs) k 0,
        get_or-drop (j * 32) xs k 0,
        get_or-splice (i * 32) ys xs (j * 32 + k) 0 (omega arith),
      ))

module _ {E : Type 0} (x : CpuState) (rd : ℕ) (d : DiffRecord) {x' : CpuState}
    {d' : DiffRecord} where
  write_gpr-eq-ok :
      (val : ℕ)
      → write_gpr {E = E} x rd val d ≡ ok (x', d')
      → (rd < 32)
        × (x' ≡ record x { gpr = set x.gpr rd val })
        × (d' ≡ record d { gpr_write_mask = Bitmap.set d.gpr_write_mask rd })
  unfolding write_gpr
  write_gpr-eq-ok val e = ground arith

  write_fpr-eq-ok :
      (val : ℕ)
      → write_fpr {E = E} x rd val d ≡ ok (x', d')
      → (rd < 32)
        × (x' ≡ record x { fpr = set x.fpr rd val })
        × (d' ≡ record d { fpr_write_mask = Bitmap.set d.fpr_write_mask rd })
  unfolding write_fpr
  write_fpr-eq-ok val e = ground arith

  write_vreg-eq-ok :
      (bytes : List ℕ)
      → write_vreg {E = E} x rd bytes d ≡ ok (x', d')
      → (rd < 32)
        × (length bytes ≡ 32)
        × (x' ≡ record x { vregs = splice (rd * 32) bytes x.vregs })
        × (d' ≡ record d { vreg_write_mask = Bitmap.set d.vreg_write_mask rd })
  unfolding write_vreg
  write_vreg-eq-ok bytes e = ground arith

-- A replayed state has its shape, and its record tracks all that changed since `x₀`.
pub record Replayed (x₀ : CpuState) (d : DiffRecord) (x : CpuState) : Type 0 where
  pub shaped : IsShaped x
  pub tracks : Tracks x₀ d x

-- A replay starts from the new program counter and the empty record.
pub Replayed-pc : (x : CpuState) (pc : ℕ) → IsShaped x → Replayed x no_diff (record x { pc = pc })
Replayed-pc x pc s = record {
  shaped = record { gprs = s.gprs; fprs = s.fprs; bytes = s.bytes };
  tracks = record {
    gpr_word = omega arith;
    fpr_word = omega arith;
    vreg_word = omega arith;
    gpr_kept = λ i h. refl;
    fpr_kept = λ i h. refl;
    vreg_kept = λ i h. refl;
  };
}

module _ {E : Type 0} {x₀ x x' : CpuState} {d d' : DiffRecord} (r : Replayed x₀ d x) (rd : ℕ) where
  pub write_gpr-Replayed :
      (val : ℕ) → write_gpr {E = E} x rd val d ≡ ok (x', d') → Replayed x₀ d' x'
  write_gpr-Replayed val e =
      let (lt, ex, ed) = write_gpr-eq-ok {E = E} x rd d val e in
      rw (ex, ed)
        (record {
          shaped = record {
            gprs = length-set x.gpr rd val ∙ r.shaped.gprs;
            fprs = r.shaped.fprs;
            bytes = r.shaped.bytes;
          };
          tracks = record {
            gpr_word = set-IsWord d.gpr_write_mask rd lt r.tracks.gpr_word;
            fpr_word = r.tracks.fpr_word;
            vreg_word = r.tracks.vreg_word;
            gpr_kept = λ i clear.
                let (ne, before) = bit-set_clear d.gpr_write_mask rd i lt clear in
                get_or-set_ne x.gpr rd i val 0 ne ∙ r.tracks.gpr_kept i before;
            fpr_kept = r.tracks.fpr_kept;
            vreg_kept = r.tracks.vreg_kept;
          };
        })

  pub write_fpr-Replayed :
      (val : ℕ) → write_fpr {E = E} x rd val d ≡ ok (x', d') → Replayed x₀ d' x'
  write_fpr-Replayed val e =
      let (lt, ex, ed) = write_fpr-eq-ok {E = E} x rd d val e in
      rw (ex, ed)
        (record {
          shaped = record {
            gprs = r.shaped.gprs;
            fprs = length-set x.fpr rd val ∙ r.shaped.fprs;
            bytes = r.shaped.bytes;
          };
          tracks = record {
            gpr_word = r.tracks.gpr_word;
            fpr_word = set-IsWord d.fpr_write_mask rd lt r.tracks.fpr_word;
            vreg_word = r.tracks.vreg_word;
            gpr_kept = r.tracks.gpr_kept;
            fpr_kept = λ i clear.
                let (ne, before) = bit-set_clear d.fpr_write_mask rd i lt clear in
                get_or-set_ne x.fpr rd i val 0 ne ∙ r.tracks.fpr_kept i before;
            vreg_kept = r.tracks.vreg_kept;
          };
        })

  pub write_vreg-Replayed :
      (bytes : List ℕ) → write_vreg {E = E} x rd bytes d ≡ ok (x', d') → Replayed x₀ d' x'
  write_vreg-Replayed bytes e =
      let (lt, len, ex, ed) = write_vreg-eq-ok {E = E} x rd d bytes e in
      let whole = r.shaped.bytes in
      let room : rd * 32 + length bytes ≤ length x.vregs = omega arith in
      rw (ex, ed)
        (record {
          shaped = record {
            gprs = r.shaped.gprs;
            fprs = r.shaped.fprs;
            bytes = length-splice (rd * 32) bytes x.vregs room ∙ r.shaped.bytes;
          };
          tracks = record {
            gpr_word = r.tracks.gpr_word;
            fpr_word = r.tracks.fpr_word;
            vreg_word = set-IsWord d.vreg_write_mask rd lt r.tracks.vreg_word;
            gpr_kept = r.tracks.gpr_kept;
            fpr_kept = r.tracks.fpr_kept;
            vreg_kept = λ i clear.
                let (ne, before) = bit-set_clear d.vreg_write_mask rd i lt clear in
                slice-splice_ne x.vregs bytes rd i len lt r.shaped.bytes ne
                ∙ r.tracks.vreg_kept i before;
          };
        })

-- A CSR write changes no register file.
pub write_csr-Replayed :
    {x₀ x x' : CpuState} {d : DiffRecord} (r : Replayed x₀ d x) (name : String) (val : ℕ)
    → write_csr x name val ≡ ok x'
    → Replayed x₀ d x'
unfolding write_csr
write_csr-Replayed {x = x} {x' = x'} r name val e =
    let (c, wrote, ex) = >>=-eq-ok (Csr.write x.csr name val) (λ c. ok (record x { csr = c })) e in
    let is_record : record x { csr = c } ≡ x' = cc in
    rw (← is_record) (record {
      shaped = record { gprs = r.shaped.gprs; fprs = r.shaped.fprs; bytes = r.shaped.bytes };
      tracks = record {
        gpr_word = r.tracks.gpr_word;
        fpr_word = r.tracks.fpr_word;
        vreg_word = r.tracks.vreg_word;
        gpr_kept = r.tracks.gpr_kept;
        fpr_kept = r.tracks.fpr_kept;
        vreg_kept = r.tracks.vreg_kept;
      };
    })
