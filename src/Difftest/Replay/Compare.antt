-- ===== src/Difftest/Replay/Compare.antt =====
-- `DiffRecord::compare` looks at the written registers only, and decides whether the whole states
-- agree.
use pokedex.Prelude.{
  ℕ, ◌+◌, ◌*◌, ◌/◌, ◌%◌, ◌<◌, ◌≡◌, ◌↔◌, refl, ◌∙◌, sym, ap, inl, inr, Bool, true, false, ◌&&◌, List,
  arith, ◌==◌, ==_iff, ==_refl, Bool-cases, get_or, take, drop, get_or-take, get_or-drop,
  ext-get_or, all, bytes_eq, bytes_eq_iff,
}
use pokedex.Util.Bits.{bit}
use pokedex.Util.Bitmap
use pokedex.Util.Bitmap.{Bitmap32}
use pokedex.Util.Bitmap.Sets.{IsWord, union-IsWord, bit-union, all-indices_iff}
use pokedex.Difftest.Csr.Fields.{csr_eq_iff}
use pokedex.Difftest.Replay.{
  CpuState, DiffRecord, vreg_slice, combine, compare_gpr, compare_fpr, compare_vreg,
  compare_csr_all, compare,
}
use pokedex.Difftest.Replay.Frame.{Replayed}

-- The architectural states agree: every register, the program counter and every CSR.
pub record Agree (x y : CpuState) : Type 0 where
  pub gprs : x.gpr ≡ y.gpr
  pub fprs : x.fpr ≡ y.fpr
  pub vregs : x.vregs ≡ y.vregs
  pub pcs : x.pc ≡ y.pc
  pub csrs : x.csr ≡ y.csr

pub Agree-refl : (x : CpuState) → Agree x x
Agree-refl x = record { gprs = refl; fprs = refl; vregs = refl; pcs = refl; csrs = refl }

-- A byte of the vector file stands in its register's slice.
get_or-slice :
    (xs : List ℕ) (k : ℕ) → get_or (take 32 (drop (k / 32 * 32) xs)) (k % 32) 0 ≡ get_or xs k 0
get_or-slice xs k =
    let index : k / 32 * 32 + k % 32 ≡ k = omega arith in
    ground (
      arith,
      get_or-take 32 (drop (k / 32 * 32) xs) (k % 32) 0,
      get_or-drop (k / 32 * 32) xs (k % 32) 0,
      ap (λ (j : ℕ). get_or xs j 0) index,
    )

masked_all-true :
    (m n : Bitmap32) (p : ℕ → Bool)
    → IsWord m
    → IsWord n
    → ((i : ℕ) → p i ≡ true)
    → all p (Bitmap.indices (Bitmap.union m n)) ≡ true
masked_all-true m n p wm wn h =
    (all-indices_iff p (Bitmap.union m n) (union-IsWord m n wm wn)).1 (λ i lt on. h i)

-- Registers outside both masks are as they were, and those inside are compared.
module _ {A : Type 0} (m n : Bitmap32) (wm : IsWord m) (wn : IsWord n) (p : ℕ → Bool)
    (r s r₀ s₀ : ℕ → A) where
  masked_all :
      ((i : ℕ) → (p i ≡ true) → r i ≡ s i)
      → ((i : ℕ) → bit i m.word ≡ false → r i ≡ r₀ i)
      → ((i : ℕ) → bit i n.word ≡ false → s i ≡ s₀ i)
      → ((i : ℕ) → r₀ i ≡ s₀ i)
      → all p (Bitmap.indices (Bitmap.union m n)) ≡ true
      → (i : ℕ) → i < 32
      → r i ≡ s i
  masked_all sound kept_r kept_s start h i lt =
      let in_mask = (all-indices_iff p (Bitmap.union m n) (union-IsWord m n wm wn)).0 h i lt in
      elim (Bool-cases (bit i (Bitmap.union m n).word)) [
        | inl on ↦ sound i (in_mask on)
        | inr off ↦
            let off_m : bit i m.word ≡ false = ground (arith, bit-union m n i) in
            let off_n : bit i n.word ≡ false = ground (arith, bit-union m n i) in
            kept_r i off_m ∙ start i ∙ sym (kept_s i off_n)
      ]

compare_and :
    (d : DiffRecord) (x y : CpuState)
    → compare d x y ≡ (
        x.pc == y.pc
        && compare_gpr d x y
        && compare_fpr d x y
        && compare_vreg d x y
        && compare_csr_all x y)
unfolding compare
compare_and d x y = refl

compare_csr_all_sound : (x y : CpuState) → compare_csr_all x y ≡ true → x.csr ≡ y.csr
unfolding compare_csr_all
compare_csr_all_sound x y = (csr_eq_iff x.csr y.csr).0

compare_parts :
    (d : DiffRecord) (x y : CpuState)
    → compare d x y ≡ true
    → (x.pc ≡ y.pc)
      × (compare_gpr d x y ≡ true)
      × (compare_fpr d x y ≡ true)
      × (compare_vreg d x y ≡ true)
      × (x.csr ≡ y.csr)
compare_parts d x y h =
    let g = compare_gpr d x y in
    let r = compare_fpr d x y in
    let v = compare_vreg d x y in
    let c = compare_csr_all x y in ground (arith, compare_and d x y, compare_csr_all_sound x y)

module _ {x₀ y₀ x y : CpuState} {d e : DiffRecord} (rx : Replayed x₀ d x) (ry : Replayed y₀ e y)
    (start : Agree x₀ y₀) where
  gprs-Agree : compare_gpr (combine d e) x y ≡ true → x.gpr ≡ y.gpr
  unfolding compare_gpr combine
  gprs-Agree h = ext-get_or x.gpr y.gpr 0 (rx.shaped.gprs ∙ sym ry.shaped.gprs) λ i lt.
      masked_all d.gpr_write_mask e.gpr_write_mask rx.tracks.gpr_word ry.tracks.gpr_word
        (λ j. get_or x.gpr j 0 == get_or y.gpr j 0) (λ j. get_or x.gpr j 0) (λ j. get_or y.gpr j 0)
        (λ j. get_or x₀.gpr j 0) (λ j. get_or y₀.gpr j 0) (λ j. (==_iff _ _).0) rx.tracks.gpr_kept
        ry.tracks.gpr_kept (λ j. ap (λ l. get_or l j 0) start.gprs) h i (rw (← rx.shaped.gprs) lt)

  fprs-Agree : compare_fpr (combine d e) x y ≡ true → x.fpr ≡ y.fpr
  unfolding compare_fpr combine
  fprs-Agree h = ext-get_or x.fpr y.fpr 0 (rx.shaped.fprs ∙ sym ry.shaped.fprs) λ i lt.
      masked_all d.fpr_write_mask e.fpr_write_mask rx.tracks.fpr_word ry.tracks.fpr_word
        (λ j. get_or x.fpr j 0 == get_or y.fpr j 0) (λ j. get_or x.fpr j 0) (λ j. get_or y.fpr j 0)
        (λ j. get_or x₀.fpr j 0) (λ j. get_or y₀.fpr j 0) (λ j. (==_iff _ _).0) rx.tracks.fpr_kept
        ry.tracks.fpr_kept (λ j. ap (λ l. get_or l j 0) start.fprs) h i (rw (← rx.shaped.fprs) lt)

  slices-Agree :
      compare_vreg (combine d e) x y ≡ true → (i : ℕ) → i < 32 → vreg_slice x i ≡ vreg_slice y i
  unfolding compare_vreg combine
  slices-Agree h =
      masked_all d.vreg_write_mask e.vreg_write_mask rx.tracks.vreg_word ry.tracks.vreg_word
        (λ j. bytes_eq (vreg_slice x j) (vreg_slice y j)) (vreg_slice x) (vreg_slice y)
        (vreg_slice x₀) (vreg_slice y₀) (λ j. (bytes_eq_iff _ _).0) rx.tracks.vreg_kept
        ry.tracks.vreg_kept (λ j. ap (λ (l : List ℕ). take 32 (drop (j * 32) l)) start.vregs) h

  vregs-Agree : compare_vreg (combine d e) x y ≡ true → x.vregs ≡ y.vregs
  vregs-Agree h = ext-get_or x.vregs y.vregs 0 (rx.shaped.bytes ∙ sym ry.shaped.bytes) λ k lt.
      let whole = rx.shaped.bytes in
      sym (get_or-slice x.vregs k)
      ∙ ap (λ (l : List ℕ). get_or l (k % 32) 0) (slices-Agree h (k / 32) (omega arith))
      ∙ get_or-slice y.vregs k

  compare_whole : Agree x y → compare (combine d e) x y ≡ true
  unfolding compare combine
  compare_whole a = ground (
    arith,
    a.pcs,
    masked_all-true d.gpr_write_mask e.gpr_write_mask (λ j. get_or x.gpr j 0 == get_or y.gpr j 0)
        rx.tracks.gpr_word ry.tracks.gpr_word (λ j. rw a.gprs (==_refl (get_or y.gpr j 0))),
    masked_all-true d.fpr_write_mask e.fpr_write_mask (λ j. get_or x.fpr j 0 == get_or y.fpr j 0)
        rx.tracks.fpr_word ry.tracks.fpr_word (λ j. rw a.fprs (==_refl (get_or y.fpr j 0))),
    masked_all-true d.vreg_write_mask e.vreg_write_mask
        (λ j. bytes_eq (vreg_slice x j) (vreg_slice y j)) rx.tracks.vreg_word ry.tracks.vreg_word
        (λ j. rw a.vregs ((bytes_eq_iff (vreg_slice y j) (vreg_slice y j)).1 refl)),
    (csr_eq_iff x.csr y.csr).1 a.csrs,
  )

  -- For two states that agree (in the registers, the vector bytes, the program counter and the
  -- CSRs) and any writes replayed on both sides with their records kept, `compare` with the
  -- combined record holds exactly when the resulting states agree.
  pub compare_iff : (compare (combine d e) x y ≡ true) ↔ Agree x y
  compare_iff = (to, from)
    where
      to : compare (combine d e) x y ≡ true → Agree x y
      to h =
          let (pcs, gprs, fprs, vregs, csrs) = compare_parts (combine d e) x y h in
          record {
            gprs = gprs-Agree gprs;
            fprs = fprs-Agree fprs;
            vregs = vregs-Agree vregs;
            pcs = pcs;
            csrs = csrs;
          }

      from : Agree x y → compare (combine d e) x y ≡ true
      from a = compare_whole a
