-- ===== src/Util/Bitmap/Indices.antt =====
-- The iterator visits the set bits, each once and in ascending order.
use pokedex.Prelude.{
  ℕ, zero, suc, ◌-◌, ◌*◌, ◌/◌, ◌%◌, ◌^◌, ◌≤◌, ◌<◌, bit_and, ◌≡◌, ◌≢◌, refl, ◌∙◌, sym, ap, inl, inr,
  Bool, List, [], ◌∷◌, map, ◌==◌, if◌then◌else◌, Bool-cases, arith,
}
use native.Mathlib.Nat.{pow-suc, le_refl}
use pokedex.Util.Bits.{bit, bit_and_step, bit_and_self}
use pokedex.Util.Bitmap.{
  Bitmap32, BitmapIndexIter32, trailing_zeros, clear_lowest, next_of_width, visit, indices,
}

-- The numbers from `lo` on, `n` of them, at which `p` holds.
abbrev pub select : (ℕ → Bool) → ℕ → ℕ → List ℕ
select p lo zero = []
select p lo (suc n) = let rest = select p (suc lo) n in if p lo then lo ∷ rest else rest

select-suc :
    (p : ℕ → Bool) (n lo : ℕ) → select p (suc lo) n ≡ map suc (select (λ i. p (suc i)) lo n)
select-suc p zero lo = refl
select-suc p (suc n) lo = elim (Bool-cases (p (suc lo))) [
  | inl yes' ↦ rw yes' (ap (◌∷◌ (suc lo)) (select-suc p n (suc lo)))
  | inr no' ↦ rw no' (select-suc p n (suc lo))
]

clear_lowest_even : (n : ℕ) → n % 2 ≡ 0 → n ≢ 0 → clear_lowest n ≡ clear_lowest (n / 2) * 2
unfolding clear_lowest
clear_lowest_even n even pos =
    let half : (n - 1) / 2 ≡ n / 2 - 1 = omega arith in
    omega (arith, bit_and_step n (n - 1), ap (bit_and (n / 2)) half)

clear_lowest_odd : (n : ℕ) → n % 2 ≡ 1 → clear_lowest n ≡ n / 2 * 2
unfolding clear_lowest
clear_lowest_odd n odd =
    let half : (n - 1) / 2 ≡ n / 2 = omega arith in
    omega (arith, bit_and_step n (n - 1), ap (bit_and (n / 2)) half, bit_and_self (n / 2))

abbrev at : ℕ → BitmapIndexIter32
at n = record { word = n }

visit-zero : (width fuel : ℕ) → visit width fuel (at 0) ≡ []
unfolding visit next_of_width
visit-zero width zero = refl
visit-zero width (suc fuel) = refl

visit-ne_zero :
    (width fuel n : ℕ)
    → n ≢ 0
    → visit width (suc fuel) (at n)
      ≡ trailing_zeros width n ∷ visit width fuel (at (clear_lowest n))
unfolding visit next_of_width
visit-ne_zero width fuel n h = ground arith

trailing_zeros_even :
    (width n : ℕ) → n % 2 ≡ 0 → trailing_zeros (suc width) n ≡ suc (trailing_zeros width (n / 2))
unfolding trailing_zeros
trailing_zeros_even width n h = ground arith

trailing_zeros_odd : (width n : ℕ) → n % 2 ≡ 1 → trailing_zeros (suc width) n ≡ 0
unfolding trailing_zeros
trailing_zeros_odd width n h = ground arith

visit_even :
    (width fuel n : ℕ) → visit (suc width) fuel (at (n * 2)) ≡ map suc (visit width fuel (at n))
visit_even width zero n = unfold visit in refl
visit_even width (suc fuel) zero = rw visit-zero (rw visit-zero)
visit_even width (suc fuel) (suc n) =
    let half : (suc n * 2) / 2 ≡ suc n = omega arith in
    rw (visit-ne_zero (suc width) fuel (suc n * 2) (omega arith)) (
      rw (visit-ne_zero width fuel (suc n) (omega arith)) (
        rw (trailing_zeros_even width (suc n * 2) (omega arith)) (
          rw (clear_lowest_even (suc n * 2) (omega arith) (omega arith))
            (rw half (rw (visit_even width fuel (clear_lowest (suc n))))))))

visit-eq-select :
    (width fuel n : ℕ)
    → n < 2 ^ width
    → width ≤ fuel
    → visit width fuel (at n) ≡ select (λ i. bit i n) 0 width
visit-eq-select zero fuel n h le =
    let none_set : n ≡ 0 = omega arith in rw none_set (visit-zero zero fuel)
visit-eq-select (suc width) zero n h le = absurd (omega arith)
visit-eq-select (suc width) (suc fuel) n h le = elim (Bool-cases (n % 2 == 1)) [
  | inl odd ↦
      let odd' : n % 2 ≡ 1 = ground arith in
      rw odd (
        rw (visit-ne_zero (suc width) fuel n (ground arith)) (
          rw (trailing_zeros_odd width n odd') (
            rw (clear_lowest_odd n odd') (
              rw (visit_even width fuel (n / 2)) (
                rw
                  (visit-eq-select width fuel (n / 2) (omega (arith, pow-suc 2 width))
                    (omega arith))
                  (ap (◌∷◌ 0) (sym (select-suc (λ i. bit i n) width 0))))))))
  | inr even ↦
      let even' : n ≡ n / 2 * 2 = ground arith in
      rw even (
        ap (λ m. visit (suc width) (suc fuel) (at m)) even'
        ∙ visit_even width (suc fuel) (n / 2)
        ∙ ap (map suc) (
            visit-eq-select width (suc fuel) (n / 2) (omega (arith, pow-suc 2 width)) (omega arith))
        ∙ sym (select-suc (λ i. bit i n) width 0))
]

-- For a 32-bit word, `indices` yields exactly the positions below 32 whose bit is set, in
-- ascending order and each once.
pub indices-eq-select :
    (m : Bitmap32) → m.word < 2 ^ 32 → indices m ≡ select (λ i. bit i m.word) 0 32
unfolding indices
indices-eq-select m h = visit-eq-select 32 32 m.word h (le_refl 32)
