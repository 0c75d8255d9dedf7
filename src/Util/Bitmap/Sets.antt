-- ===== src/Util/Bitmap/Sets.antt =====
-- A bitmap is the set of its bits: `set` adds one, `|` joins two, and a loop over `indices` sees
-- them all.
use pokedex.Prelude.{
  ℕ, zero, suc, ◌+◌, ◌^◌, ◌≤◌, ◌<◌, ◌≡◌, ◌↔◌, refl, Bool, true, ◌||◌, all, ◌==◌, arith,
}
use native.Mathlib.Nat.{one-le-pow, pow-suc, mod-eq_of_lt}
use pokedex.Util.Bits.{bit, bit-bit_or, bit-two_pow, bit_and-two_pow, bit_or-lt}
use pokedex.Util.Bitmap.{Bitmap32, set, test, union, indices}
use pokedex.Util.Bitmap.Indices.{select, indices-eq-select}

abbrev pub IsWord : Bitmap32 → Type 0
IsWord m = m.word < 2 ^ 32

two_pow-le-two_pow : (k i : ℕ) → i ≤ k → 2 ^ i ≤ 2 ^ k
two_pow-le-two_pow k zero h = one-le-pow k 2 (omega arith)
two_pow-le-two_pow zero (suc i) h = absurd (omega arith)
two_pow-le-two_pow (suc k) (suc i) h =
    omega (arith, pow-suc 2 k, pow-suc 2 i, two_pow-le-two_pow k i (omega arith))

two_pow_lt : (i : ℕ) → i < 32 → 2 ^ i < 2 ^ 32
two_pow_lt i h = ground (arith, two_pow-le-two_pow 31 i (omega arith))

pub set-IsWord : (m : Bitmap32) (i : ℕ) → i < 32 → IsWord m → IsWord (set m i)
unfolding set
set-IsWord m i h w = rw (mod-eq_of_lt h) (bit_or-lt 32 m.word (2 ^ i) w (two_pow_lt i h))

pub union-IsWord : (a b : Bitmap32) → IsWord a → IsWord b → IsWord (union a b)
unfolding union
union-IsWord a b wa wb = bit_or-lt 32 a.word b.word wa wb

-- After `set` at an index below 32, a bit is set exactly if it was set before or is the one at
-- that index.
pub bit-set : (m : Bitmap32) (i j : ℕ) → i < 32 → bit j (set m i).word ≡ ((j == i) || bit j m.word)
unfolding set
bit-set m i j h = rw (mod-eq_of_lt h) (rw bit-bit_or (rw bit-two_pow (ground arith)))

pub bit-union : (a b : Bitmap32) (i : ℕ) → bit i (union a b).word ≡ (bit i a.word || bit i b.word)
unfolding union
bit-union a b i = bit-bit_or i a.word b.word

-- For an index below 32, `test` answers whether the bit at that index is set.
pub test-eq-bit : (m : Bitmap32) (i : ℕ) → i < 32 → test m i ≡ bit i m.word
unfolding test
test-eq-bit m i h =
    rw (mod-eq_of_lt h) (rw bit_and-two_pow (ground (arith, one-le-pow i 2 (omega arith))))

module _ (p : ℕ → Bool) where
  all-select :
      (q : ℕ → Bool) (n lo : ℕ)
      → all p (select q lo n) ≡ true
      → (i : ℕ) → lo ≤ i
      → i < lo + n
      → q i ≡ true
      → p i ≡ true
  all-select q zero lo h i le lt on = absurd (omega arith)
  all-select q (suc n) lo h i le lt on = ground (
    arith,
    λ (r : all p (select q (suc lo) n) ≡ true) (l : suc lo ≤ i).
        all-select q n (suc lo) r i l (omega arith) on,
  )

  select-all :
      (q : ℕ → Bool) (n lo : ℕ)
      → ((i : ℕ) → lo ≤ i → i < lo + n → q i ≡ true → p i ≡ true)
      → all p (select q lo n) ≡ true
  select-all q zero lo h = refl
  select-all q (suc n) lo h = ground (
    arith,
    select-all q n (suc lo) (λ i le lt on. h i (omega arith) (omega arith) on),
    h lo (omega arith) (omega arith),
  )

  -- For a 32-bit word, a test holds at all that `indices` yields exactly when it holds at each
  -- position below 32 whose bit is set.
  pub all-indices_iff :
      (m : Bitmap32)
      → IsWord m
      → (all p (indices m) ≡ true) ↔ ((i : ℕ) → i < 32 → bit i m.word ≡ true → p i ≡ true)
  all-indices_iff m w = rw (indices-eq-select m w) (
    (λ h i lt on. all-select (λ j. bit j m.word) 32 0 h i (omega arith) (omega arith) on),
    (λ h. select-all (λ j. bit j m.word) 32 0 (λ i le lt on. h i (omega arith) on)),
  )
