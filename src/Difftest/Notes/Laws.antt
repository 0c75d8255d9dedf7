-- ===== src/Difftest/Notes/Laws.antt =====
-- The notes show a difference exactly when there is one.
use pokedex.Prelude.{
  ℕ, zero, suc, ◌+◌, ◌≤◌, ◌<◌, ◌≡◌, ◌↔◌, refl, ◌∙◌, sym, ap, Bool, true, false, not, List, [], ◌∷◌,
  ◌++◌, arith, if◌then◌else◌, length, get_or, ext-get_or, bytes_eq, bytes_eq_iff,
}
use pokedex.Difftest.Replay.{CpuState}
use pokedex.Difftest.Replay.Frame.{IsShaped}
use pokedex.Difftest.Replay.Compare.{Agree}
use pokedex.Difftest.Notes.{
  Note, pc_same, x_differs, f_differs, gpr_note, fpr_note, vreg_note, vreg_header, for_range,
  when_ne, pc_notes, gpr_notes, fpr_notes, csr_notes, vreg_notes, pretty_print_diff,
}

append-eq-nil {ℓ} : {A : Type ℓ} (xs ys : List A) → xs ++ ys ≡ [] → (xs ≡ []) × (ys ≡ [])
append-eq-nil [] ys h = (refl, h)
append-eq-nil (x ∷ xs) ys h = cc

module _ {A : Type 0} (f : ℕ → List A) where
  for_range-nil : (n lo : ℕ) → for_range lo n f ≡ [] → (i : ℕ) → lo ≤ i → i < lo + n → f i ≡ []
  for_range-nil zero lo h i le lt = absurd (omega arith)
  for_range-nil (suc n) lo h i le lt =
      let (first, rest) = append-eq-nil (f lo) (for_range (suc lo) n f) h in
      ground (
        arith,
        first,
        λ (above : suc lo ≤ i). for_range-nil n (suc lo) rest i above (omega arith),
        λ (same : lo ≡ i). ap f same,
      )

  nil-for_range : (n lo : ℕ) → ((i : ℕ) → f i ≡ []) → for_range lo n f ≡ []
  nil-for_range zero lo h = refl
  nil-for_range (suc n) lo h = rw (h lo) (nil-for_range n (suc lo) h)

when_ne-nil : (g d : ℕ) (n : Note) → when_ne g d n ≡ [] → g ≡ d
when_ne-nil g d n h = ground arith

csr_notes-nil : (x y : CpuState) → csr_notes x y ≡ [] → x.csr ≡ y.csr
unfolding csr_notes
csr_notes-nil x y h = ground arith

gpr_notes-nil :
    (x y : CpuState) → length x.gpr ≡ 32 → length y.gpr ≡ 32 → gpr_notes x y ≡ [] → x.gpr ≡ y.gpr
unfolding gpr_notes
gpr_notes-nil x y hx hy h = ext-get_or x.gpr y.gpr 0 (hx ∙ sym hy) λ i lt.
    when_ne-nil (get_or x.gpr i 0) (get_or y.gpr i 0)
      (x_differs i (get_or x.gpr i 0) (get_or y.gpr i 0))
      (for_range-nil (gpr_note x y) 32 0 h i (omega arith) (omega arith))

fpr_notes-nil :
    (x y : CpuState) → length x.fpr ≡ 32 → length y.fpr ≡ 32 → fpr_notes x y ≡ [] → x.fpr ≡ y.fpr
unfolding fpr_notes
fpr_notes-nil x y hx hy h = ext-get_or x.fpr y.fpr 0 (hx ∙ sym hy) λ i lt.
    when_ne-nil (get_or x.fpr i 0) (get_or y.fpr i 0)
      (f_differs i (get_or x.fpr i 0) (get_or y.fpr i 0))
      (for_range-nil (fpr_note x y) 32 0 h i (omega arith) (omega arith))

shown-nil : (b : Bool) (n : Note) (ns : List Note) → (if not b then n ∷ ns else []) ≡ [] → b ≡ true
shown-nil true n ns h = refl
shown-nil false n ns h = cc

vreg_notes-nil : (x y : CpuState) → vreg_notes x y ≡ [] → x.vregs ≡ y.vregs
unfolding vreg_notes
vreg_notes-nil x y h =
    (bytes_eq_iff x.vregs y.vregs).0
      (shown-nil (bytes_eq x.vregs y.vregs) vreg_header (for_range 0 32 (vreg_note x y)) h)

pc_notes-head :
    (x y : CpuState) (rest : List Note)
    → pc_notes x y ++ rest ≡ pc_same x.pc ∷ []
    → (x.pc ≡ y.pc) × (rest ≡ [])
unfolding pc_notes
pc_notes-head x y rest h = ground arith

pretty_print_diff_lem :
    (x y : CpuState)
    → pretty_print_diff x y
      ≡ pc_notes x y ++ (gpr_notes x y ++ (fpr_notes x y ++ (csr_notes x y ++ vreg_notes x y)))
unfolding pretty_print_diff
pretty_print_diff_lem x y = refl

when_ne_self : (g d : ℕ) (n : Note) → g ≡ d → when_ne g d n ≡ []
when_ne_self g d n e = ground arith

module _ (x y : CpuState) where
  nil-pc_notes : x.pc ≡ y.pc → pc_notes x y ≡ pc_same x.pc ∷ []
  unfolding pc_notes
  nil-pc_notes e = ground arith

  nil-gpr_notes : x.gpr ≡ y.gpr → gpr_notes x y ≡ []
  unfolding gpr_notes
  nil-gpr_notes e =
      nil-for_range (gpr_note x y) 32 0
        λ i. when_ne_self _ _ _ (ap (λ (l : List ℕ). get_or l i 0) e)

  nil-fpr_notes : x.fpr ≡ y.fpr → fpr_notes x y ≡ []
  unfolding fpr_notes
  nil-fpr_notes e =
      nil-for_range (fpr_note x y) 32 0
        λ i. when_ne_self _ _ _ (ap (λ (l : List ℕ). get_or l i 0) e)

  nil-csr_notes : x.csr ≡ y.csr → csr_notes x y ≡ []
  unfolding csr_notes
  nil-csr_notes e = ground arith

  nil-vreg_notes : x.vregs ≡ y.vregs → vreg_notes x y ≡ []
  unfolding vreg_notes
  nil-vreg_notes e = rw ((bytes_eq_iff x.vregs y.vregs).1 e)

  Agree-notes : Agree x y → pretty_print_diff x y ≡ pc_same x.pc ∷ []
  Agree-notes a = rw pretty_print_diff_lem (
      rw (
        nil-pc_notes a.pcs,
        nil-gpr_notes a.gprs,
        nil-fpr_notes a.fprs,
        nil-csr_notes a.csrs,
        nil-vreg_notes a.vregs,
      ))

-- For two states of full size, the notes on their difference are the line for the equal program
-- counter alone exactly when the states agree.
pub pretty_print_diff_iff :
    (x y : CpuState)
    → IsShaped x
    → IsShaped y
    → (pretty_print_diff x y ≡ pc_same x.pc ∷ []) ↔ Agree x y
pretty_print_diff_iff x y sx sy = (to, from)
  where
    to : pretty_print_diff x y ≡ pc_same x.pc ∷ [] → Agree x y
    to h =
        let (pcs, r₁) = pc_notes-head x y _ (rw pretty_print_diff_lem at h) in
        let (gprs, r₂) = append-eq-nil (gpr_notes x y) _ r₁ in
        let (fprs, r₃) = append-eq-nil (fpr_notes x y) _ r₂ in
        let (csrs, vregs) = append-eq-nil (csr_notes x y) _ r₃ in
        record {
          gprs = gpr_notes-nil x y sx.gprs sy.gprs gprs;
          fprs = fpr_notes-nil x y sx.fprs sy.fprs fprs;
          vregs = vreg_notes-nil x y vregs;
          pcs = pcs;
          csrs = csr_notes-nil x y csrs;
        }

    from : Agree x y → pretty_print_diff x y ≡ pc_same x.pc ∷ []
    from a = Agree-notes x y a
