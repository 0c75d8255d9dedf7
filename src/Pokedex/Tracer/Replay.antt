-- ===== src/Pokedex/Tracer/Replay.antt =====
-- A logged step, replayed by the difftest, gives the scalar registers of the core.
use pokedex.Prelude.{
  ℕ, zero, suc, ◌+◌, ◌^◌, ◌≤◌, ◌<◌, ◌≡◌, inl, inr, refl, sym, ap, ◌∙◌, Bool, true, false, ◌&&◌,
  ◌||◌, Option, none, some, List, [], ◌∷◌, ◌++◌, map, String, ltb, leb, ◌==◌, if◌then◌else◌,
  Bool-cases, arith, as_u8, Outcome, ok, >>=-eq-ok, length, get_or, set, length-set,
  get_or-set_self, get_or-set_ne,
}
use pokedex.Common.{StateWrite}
use pokedex.Util.Bits.{bit}
use pokedex.Util.Bitmap.{from_mask}
use pokedex.Util.Bitmap.Indices.{select, indices-eq-select}
use pokedex.Bus.Memory.{BusError}
use pokedex.Difftest.PokedexLog.Effects.{gpr_of, fpr_of, set_some, after}
use pokedex.Model.{
  ModelExport, CoreChange, change_indices, xreg_change_indices, freg_change_indices,
  vreg_change_indices, csr_change_indices, xreg_changes, freg_changes, read_xreg, read_freg,
  read_vreg, read_csr,
}
use pokedex.Pokedex.Tracer.{name_of_csr, csr_writes, state_writes}

abbrev occurs : ℕ → List ℕ → Bool
occurs i [] = false
occurs i (j ∷ js) = i == j || occurs i js

-- The indices of a mask are the positions of its bits.
occurs-select :
    (q : ℕ → Bool) (n lo i : ℕ)
    → lo + n ≤ 256
    → occurs i (map as_u8 (select q lo n)) ≡ (leb lo i && ltb i (lo + n) && q i)
occurs-select q zero lo i h = ground arith
occurs-select q (suc n) lo i h = elim (Bool-cases (q lo)) [
  | inl here ↦
      rw here (ground (arith, occurs-select q n (suc lo) i (omega arith), λ (e : i ≡ lo). ap q e))
  | inr absent ↦
      rw absent (ground (arith, occurs-select q n (suc lo) i (omega arith), λ (e : i ≡ lo). ap q e))
]

set_or_kept :
    (f : ℕ → ℕ) (i j : ℕ) (later : Bool) (regs : List ℕ)
    → i < length regs
    → (if later then f i else get_or (set regs j (f j)) i 0)
      ≡ (if i == j || later then f i else get_or regs i 0)
set_or_kept f i j true regs lt = ground arith
set_or_kept f i j false regs lt = elim (Bool-cases (i == j)) [
  | inl same ↦
      let e : i ≡ j = ground arith in rw same (rw (← e) (get_or-set_self regs i (f i) 0 lt))
  | inr other ↦ rw other (get_or-set_ne regs j i (f j) 0 (λ e. ground arith))
]

module _ (sel : StateWrite → Option (ℕ × ℕ)) where
  after-append :
      (ws vs : List StateWrite) (regs : List ℕ)
      → after sel (ws ++ vs) regs ≡ after sel vs (after sel ws regs)
  after-append [] vs regs = refl
  after-append (w ∷ ws) vs regs = after-append ws vs (set_some (sel w) regs)

  after_unselected :
      {A : Type 0} (make : A → StateWrite) (xs : List A) (regs : List ℕ)
      → ((a : A) → sel (make a) ≡ none)
      → after sel (map make xs) regs ≡ regs
  after_unselected make [] regs h = refl
  after_unselected make (x ∷ xs) regs h =
      ap (λ o. after sel (map make xs) (set_some o regs)) (h x) ∙ after_unselected make xs regs h

  after_selected :
      (make : ℕ × ℕ → StateWrite) (f : ℕ → ℕ) (js : List ℕ) (regs : List ℕ) (i : ℕ)
      → ((r : ℕ × ℕ) → sel (make r) ≡ some r)
      → i < length regs
      → get_or (after sel (map make (map (λ j. (j, f j)) js)) regs) i 0
        ≡ (if occurs i js then f i else get_or regs i 0)
  after_selected make f [] regs i h lt = refl
  after_selected make f (j ∷ js) regs i h lt =
      let later =
        after_selected make f js (set regs j (f j)) i h (omega (arith, length-set regs j (f j))) in
      ap (λ o. get_or (after sel (map make (map (λ k. (k, f k)) js)) (set_some o regs)) i 0)
        (h (j, f j))
      ∙ later
      ∙ set_or_kept f i j (occurs i js) regs lt

  after-csr_writes :
      (m : ModelExport) (core : m.State) (csrs : List ℕ) (regs : List ℕ) {ws : List StateWrite}
      → ((name : String) (value : ℕ) → sel (StateWrite.csr name value) ≡ none)
      → csr_writes m {E = BusError} core csrs ≡ ok ws
      → after sel ws regs ≡ regs
  unfolding csr_writes
  after-csr_writes m core [] regs {ws} h e = let nil : [] ≡ ws = cc in rw (← nil) refl
  after-csr_writes m core (csr ∷ csrs) regs {ws} h e =
      let (name, _, e1) = >>=-eq-ok (name_of_csr {E = BusError} csr) _ e in
      let (rest, more, e2) =
        >>=-eq-ok (csr_writes m {E = BusError} core csrs)
          (λ rest. ok (StateWrite.csr name (read_csr m core csr) ∷ rest)) e1 in
      let same : StateWrite.csr name (read_csr m core csr) ∷ rest ≡ ws = cc in
      rw (← same) (
        ap (λ o. after sel rest (set_some o regs)) (h name (read_csr m core csr))
        ∙ after-csr_writes m core csrs regs h more)

  after_unselected_two :
      {A B : Type 0} (f : A → StateWrite) (g : B → StateWrite) (xs : List A) (ys : List B)
      (zs : List StateWrite) (regs : List ℕ)
      → ((a : A) → sel (f a) ≡ none)
      → ((b : B) → sel (g b) ≡ none)
      → after sel zs regs ≡ regs
      → after sel (map f xs ++ (map g ys ++ zs)) regs ≡ regs
  after_unselected_two f g xs ys zs regs hf hg hz =
      after-append (map f xs) (map g ys ++ zs) regs
      ∙ ap (after sel (map g ys ++ zs)) (after_unselected f xs regs hf)
      ∙ after-append (map g ys) zs regs
      ∙ ap (after sel zs) (after_unselected g ys regs hg)
      ∙ hz

ok_injective :
    {xs ys : List StateWrite}
    → ◌≡◌ {A = Outcome BusError (List StateWrite)} (ok xs) (ok ys)
    → xs ≡ ys
ok_injective h = cc

abbrev make_x : ℕ × ℕ → StateWrite
make_x (rd, value) = StateWrite.xrf rd value

abbrev make_f : ℕ × ℕ → StateWrite
make_f (rd, value) = StateWrite.frf rd value

occurs-change_indices :
    (m : ModelExport) (mask i : ℕ)
    → mask < 2 ^ 32
    → i < 32
    → occurs i (change_indices m mask) ≡ bit i mask
occurs-change_indices m mask i h lt =
    ap (λ js. occurs i (map as_u8 js)) (indices-eq-select (from_mask mask) h)
    ∙ occurs-select (λ j. bit j mask) 32 0 i (omega arith)
    ∙ ground arith

module _ (m : ModelExport) (changes : CoreChange m) {ws : List StateWrite}
    (h : state_writes m {E = BusError} changes ≡ ok ws) where
  abbrev vrf_of : ℕ → StateWrite
  vrf_of rd = StateWrite.vrf rd (read_vreg m changes.core rd 32)

  writes_parts :
      (csrs : List StateWrite) × (csr_writes m {E = BusError} changes.core
          (csr_change_indices m changes)
        ≡ ok csrs)
      × (ws
          ≡ map make_x (xreg_changes m changes)
            ++ (map make_f (freg_changes m changes)
                ++ (map vrf_of (vreg_change_indices m changes) ++ csrs)))
  unfolding state_writes
  writes_parts =
      let (csrs, made, e) =
        >>=-eq-ok (csr_writes m {E = BusError} changes.core (csr_change_indices m changes)) _ h in
      (csrs, made, sym (ok_injective e))

  pub gpr-after :
      (regs : List ℕ) (i : ℕ)
      → changes.tb.xreg_mask < 2 ^ 32
      → i < 32
      → i < length regs
      → get_or (after gpr_of ws regs) i 0
        ≡ (if bit i changes.tb.xreg_mask then read_xreg m changes.core i else get_or regs i 0)
  unfolding xreg_changes xreg_change_indices
  gpr-after regs i word lt len =
      let (csrs, made, is_ws) = writes_parts in
      let js = change_indices m changes.tb.xreg_mask in
      let first = after gpr_of (map make_x (xreg_changes m changes)) regs in
      let none_later =
        after_unselected_two gpr_of make_f vrf_of (freg_changes m changes)
          (vreg_change_indices m changes) csrs first (λ r. refl) (λ r. refl)
          (after-csr_writes gpr_of m changes.core (csr_change_indices m changes) first (λ n v. refl)
            made) in
      rw is_ws (
        rw (after-append gpr_of (map make_x (xreg_changes m changes))) (
          rw none_later (
            after_selected gpr_of make_x (read_xreg m changes.core) js regs i (λ r. refl) len
            ∙ ap (λ b. if b then read_xreg m changes.core i else get_or regs i 0)
                (occurs-change_indices m changes.tb.xreg_mask i word lt))))

  pub fpr-after :
      (regs : List ℕ) (i : ℕ)
      → changes.tb.freg_mask < 2 ^ 32
      → i < 32
      → i < length regs
      → get_or (after fpr_of ws regs) i 0
        ≡ (if bit i changes.tb.freg_mask then read_freg m changes.core i else get_or regs i 0)
  unfolding freg_changes freg_change_indices
  fpr-after regs i word lt len =
      let (csrs, made, is_ws) = writes_parts in
      let js = change_indices m changes.tb.freg_mask in
      let vs = map vrf_of (vreg_change_indices m changes) ++ csrs in
      let middle = after fpr_of (map make_f (freg_changes m changes)) regs in
      let none_later : after fpr_of vs middle ≡ middle =
        after-append fpr_of (map vrf_of (vreg_change_indices m changes)) csrs middle
        ∙ ap (after fpr_of csrs)
            (after_unselected fpr_of vrf_of (vreg_change_indices m changes) middle (λ r. refl))
        ∙ after-csr_writes fpr_of m changes.core (csr_change_indices m changes) middle (λ n v. refl)
            made in
      rw is_ws (
        ap (λ rs. get_or rs i 0)
          (after-append fpr_of (map make_x (xreg_changes m changes))
              (map make_f (freg_changes m changes) ++ vs) regs
            ∙ ap (after fpr_of (map make_f (freg_changes m changes) ++ vs))
                (after_unselected fpr_of make_x (xreg_changes m changes) regs (λ r. refl))
            ∙ after-append fpr_of (map make_f (freg_changes m changes)) vs regs
            ∙ none_later)
        ∙ after_selected fpr_of make_f (read_freg m changes.core) js regs i (λ r. refl) len
        ∙ ap (λ b. if b then read_freg m changes.core i else get_or regs i 0)
            (occurs-change_indices m changes.tb.freg_mask i word lt))
