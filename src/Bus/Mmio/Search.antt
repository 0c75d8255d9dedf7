-- ===== src/Bus/Mmio/Search.antt =====
-- The binary search finds a register exactly when there is one.
use pokedex.Prelude.{
  ℕ, zero, suc, ◌+◌, ◌-◌, ◌/◌, ◌≤◌, ◌<◌, ◌≡◌, ◌≢◌, inl, inr, none, some, List, [], ◌∷◌, ltb, leb,
  if◌then◌else◌, ltb→lt, Bool-cases, arith, length, get_or,
}
use native.Mathlib.Nat.{le_refl}
use native.Mathlib.Decide.{dec_le}
use pokedex.Bus.Mmio.{narrow, search_key}

-- The keys ascend.
abbrev pub Ascends : List ℕ → Type 0
Ascends keys = (i j : ℕ) → i ≤ j → j < length keys → get_or keys i 0 ≤ get_or keys j 0

module _ (keys : List ℕ) (target : ℕ) (sorted : Ascends keys) where
  abbrev Has : ℕ → ℕ → Type 0
  Has base size = (j : ℕ) × (base ≤ j) × (j < base + size) × (get_or keys j 0 ≡ target)

  half_fit :
      (base size : ℕ)
      → base + size ≤ length keys
      → (if ltb target (get_or keys (base + size / 2) 0) then base else base + size / 2)
          + (size - size / 2)
        ≤ length keys
  half_fit base size fit = ground arith

  -- One halving keeps a match in range.
  Has-halved :
      (base size : ℕ)
      → 1 < size
      → base + size ≤ length keys
      → Has base size
      → Has
          (if ltb target (get_or keys (base + size / 2) 0) then base else base + size / 2)
          (size - size / 2)
  Has-halved base size big fit (j, ge, lt, hit) =
      let mid = base + size / 2 in
      elim (Bool-cases (ltb target (get_or keys mid 0))) [
        | inl below ↦ rw below (
          j,
          ge,
          elim (dec_le mid j) [
            | yes after ↦
                let order = sorted mid j after (omega arith) in
                absurd (omega (arith, ltb→lt target (get_or keys mid 0) below))
            | no before ↦ omega arith
          ],
          hit,
        )
        | inr above ↦ rw above (elim (dec_le mid j) [
          | yes after ↦ (j, after, omega arith, hit)
          | no before ↦
              let order = sorted j mid (omega arith) (omega arith) in
              (mid, le_refl mid, omega arith, ground arith)
        ])
      ]

  narrow-hits :
      (fuel base size : ℕ)
      → size ≤ suc fuel
      → base + size ≤ length keys
      → Has base size
      → get_or keys (narrow fuel keys target base size) 0 ≡ target
  unfolding narrow
  narrow-hits zero base size le fit (j, ge, lt, hit) =
      let only : j ≡ base = omega arith in rw (← only) hit
  narrow-hits (suc fuel) base size le fit (j, ge, lt, hit) = elim (Bool-cases (leb size 1)) [
    | inl small ↦ let only : j ≡ base = ground arith in rw (small, narrow) (rw (← only) hit)
    | inr large ↦
        let big : 1 < size = ground arith in
        rw (large, narrow)
          (narrow-hits fuel _ (size - size / 2) (omega arith) (half_fit base size fit)
            (Has-halved base size big fit (j, ge, lt, hit)))
  ]

narrow-lt :
    (keys : List ℕ) (target fuel base size : ℕ)
    → 0 < size
    → narrow fuel keys target base size < base + size
unfolding narrow
narrow-lt keys target zero base size pos = omega arith
narrow-lt keys target (suc fuel) base size pos = elim (Bool-cases (leb size 1)) [
  | inl small ↦ rw (small, narrow) (omega arith)
  | inr large ↦
      let big : 1 < size = ground arith in
      let mid = base + size / 2 in
      let base' : ℕ = if ltb target (get_or keys mid 0) then base else mid in
      let rest = narrow-lt keys target fuel base' (size - size / 2) (omega arith) in
      rw (large, narrow) (ground (arith, rest))
]

-- A search that answers gives an index at which the key stands.
pub search_key-some :
    (keys : List ℕ) (target : ℕ) {i : ℕ}
    → search_key keys target ≡ some i
    → (i < length keys) × (get_or keys i 0 ≡ target)
unfolding search_key
search_key-some [] target h = cc
search_key-some (k ∷ ks) target h =
    ground (arith, narrow-lt (k ∷ ks) target (length (k ∷ ks)) 0 (length (k ∷ ks)) (omega arith))

-- On ascending keys it answers wherever the key stands at some index.
pub search_key-ne-none :
    (keys : List ℕ) (target j : ℕ)
    → Ascends keys
    → j < length keys
    → get_or keys j 0 ≡ target
    → search_key keys target ≢ none
unfolding search_key
search_key-ne-none [] target j sorted lt hit h = absurd (omega arith)
search_key-ne-none (k ∷ ks) target j sorted lt hit h = ground (
  arith,
  narrow-hits (k ∷ ks) target sorted (length (k ∷ ks)) 0 (length (k ∷ ks)) (omega arith)
      (omega arith) (j, omega arith, omega arith, hit),
)
