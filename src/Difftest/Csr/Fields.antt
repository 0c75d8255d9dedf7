-- ===== src/Difftest/Csr/Fields.antt =====
-- `==` on `CsrState`, and what a write of a part of `fcsr` does to each of its bits.
use native.Mathlib.Nat.{pow-suc}
use pokedex.Prelude.{
  ℕ, zero, suc, ◌-◌, ◌/◌, ◌^◌, ◌<◌, ◌≡◌, ◌↔◌, refl, Bool, true, false, not, ◌&&◌, arith, ltb, leb,
  if◌then◌else◌, ok, bit_and, u32_mod,
}
use pokedex.Util.Bits.{bit, bit-bit_or, bit-bit_and, bit_and-lt, check_below, check_below-at}
use pokedex.Difftest.Csr.{
  CsrState, csr_eq, mask_fflags, mask_frm, shl_u32, not_u32, update, fits, write,
}

-- `==` on `CsrState` holds exactly when the twelve fields agree.
pub csr_eq_iff : (x y : CsrState) → (csr_eq x y ≡ true) ↔ (x ≡ y)
unfolding csr_eq
csr_eq_iff x y = (ground arith, ground arith)

bit-complement : (k i m : ℕ) → m < 2 ^ k → i < k → bit i (2 ^ k - 1 - m) ≡ not (bit i m)
bit-complement zero i m h lt = absurd (omega arith)
bit-complement (suc k) zero m h lt = ground (arith, pow-suc 2 k)
bit-complement (suc k) (suc i) m h lt =
    let half : (2 ^ suc k - 1 - m) / 2 ≡ 2 ^ k - 1 - m / 2 = omega (arith, pow-suc 2 k) in
    rw half (bit-complement k i (m / 2) (omega (arith, pow-suc 2 k)) (omega arith))

-- For a 32-bit mask and a bit below 32, `update` takes the bit from the value where the mask has
-- it, and from the old word elsewhere.
pub bit-update :
    (i src value mask : ℕ)
    → mask < u32_mod
    → i < 32
    → bit i (update src value mask) ≡ (if bit i mask then bit i value else bit i src)
unfolding update
bit-update i src value mask h lt = ground (
  arith,
  bit-bit_or i (bit_and src (not_u32 mask)) (bit_and value mask),
  bit-bit_and i src (not_u32 mask),
  bit-bit_and i value mask,
  bit-complement 32 i mask h lt,
)

-- The masks of `fflags` and `frm`, bit by bit.
abbrev agree : Bool → Bool → Bool
agree true b = b
agree false b = not b

agree-eq : (a b : Bool) → agree a b ≡ true → a ≡ b
agree-eq a b h = ground arith

abbrev in_frm : ℕ → Bool
in_frm i = leb 5 i && ltb i 8

mask_fflags_table : check_below 32 (λ i. agree (bit i mask_fflags) (ltb i 5)) ≡ true
unfolding check_below
mask_fflags_table = refl

mask_frm_table : check_below 32 (λ i. agree (bit i (shl_u32 mask_frm 5)) (in_frm i)) ≡ true
unfolding check_below
mask_frm_table = refl

shift_table :
    check_below 8 (λ v.
      check_below 32 (λ i. agree (in_frm i && bit i (shl_u32 v 5)) (in_frm i && bit (i - 5) v)))
    ≡ true
unfolding check_below
shift_table = refl

shift_bits :
    (v i : ℕ) → v < 8 → i < 32 → (in_frm i && bit i (shl_u32 v 5)) ≡ (in_frm i && bit (i - 5) v)
shift_bits v i hv hi = agree-eq _ _ (check_below-at 32 _ i (check_below-at 8 _ v shift_table hv) hi)

fits-lt : (k val mask : ℕ) → mask < 2 ^ k → fits val mask ≡ true → val < 2 ^ k
fits-lt k val mask h ok' = ground (arith, bit_and-lt k val mask h)

write-fflags :
    (c : CsrState) (val : ℕ) {c' : CsrState}
    → write c "fflags" val ≡ ok c'
    → (c'.fcsr ≡ update c.fcsr val mask_fflags) × (fits val mask_fflags ≡ true)
unfolding write
write-fflags c val h = ground arith

write-frm :
    (c : CsrState) (val : ℕ) {c' : CsrState}
    → write c "frm" val ≡ ok c'
    → (c'.fcsr ≡ update c.fcsr (shl_u32 val 5) (shl_u32 mask_frm 5)) × (fits val mask_frm ≡ true)
unfolding write
write-frm c val h = ground arith

-- A write of `fflags` that succeeds sets the bits 0 to 4 of `fcsr` to those of the value and keeps
-- every other bit below 32.
pub write_fflags_bits :
    (c : CsrState) (val : ℕ) {c' : CsrState}
    → write c "fflags" val ≡ ok c'
    → (i : ℕ) → i < 32
    → bit i c'.fcsr ≡ (if ltb i 5 then bit i val else bit i c.fcsr)
write_fflags_bits c val h i lt =
    let (fcsr, _) = write-fflags c val h in
    rw fcsr (
      rw (bit-update i c.fcsr val mask_fflags (omega arith) lt) (
        rw (agree-eq (bit i mask_fflags) (ltb i 5) (check_below-at 32 _ i mask_fflags_table lt))
          refl))

-- A write of `frm` that succeeds sets the bits 5 to 7 of `fcsr` to the low bits of the value and
-- keeps every other bit below 32.
pub write_frm_bits :
    (c : CsrState) (val : ℕ) {c' : CsrState}
    → write c "frm" val ≡ ok c'
    → (i : ℕ) → i < 32
    → bit i c'.fcsr ≡ (if leb 5 i && ltb i 8 then bit (i - 5) val else bit i c.fcsr)
write_frm_bits c val h i lt =
    let (fcsr, fit) = write-frm c val h in
    rw fcsr (
      rw (bit-update i c.fcsr (shl_u32 val 5) (shl_u32 mask_frm 5) (omega arith) lt) (
        rw
          (agree-eq (bit i (shl_u32 mask_frm 5)) (in_frm i)
            (check_below-at 32 _ i mask_frm_table lt))
          (ground (arith, shift_bits val i (fits-lt 3 val mask_frm (omega arith) fit) lt))))
