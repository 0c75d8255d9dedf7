-- ===== src/Util/Bits.antt =====
-- The bits of a number one by one, and what `&`, `|` and a shift of one do to each of them.
use Prim.Native.Nat.{digits, bitwise, bit_and-bitwise, bit_or-bitwise, bit_xor-bitwise, differ}
use native.Mathlib.Nat.{le_refl, pow-suc}
use native.Mathlib.Decide.{dec_le}
use pokedex.Prelude.{
  ℕ, zero, suc, ◌+◌, ◌*◌, ◌/◌, ◌%◌, ◌^◌, ◌≤◌, ◌<◌, min, max, bit_and, bit_or, ◌≡◌, refl, ◌∙◌, Bool,
  false, ◌&&◌, ◌||◌, arith, ◌==◌, if◌then◌else◌, true, ap, bit_xor,
}

-- Is bit `i` of `n` set?
abbrev pub bit : ℕ → ℕ → Bool
bit zero n = n % 2 == 1
bit (suc i) n = bit i (n / 2)

module _ (rest : ℕ → ℕ) (op : ℕ → ℕ → ℕ) where
  one_digit_less : (n x y : ℕ) → x ≤ n → digits rest op (suc n) x y ≡ digits rest op n x y
  one_digit_less zero zero y le = refl
  one_digit_less zero (suc x) y le = absurd (omega arith)
  one_digit_less (suc n) zero y le = refl
  one_digit_less (suc n) (suc x) y le =
      let fewer = one_digit_less n (suc x / 2) (y / 2) (omega arith) in rw fewer refl

  -- A count of digits beyond the number itself makes no difference.
  digits_least : (n x y : ℕ) → x ≤ n → digits rest op n x y ≡ digits rest op x x y
  digits_least zero zero y le = refl
  digits_least zero (suc x) y le = absurd (omega arith)
  digits_least (suc n) x y le = elim (dec_le x n) [
    | yes below ↦ one_digit_less n x y below ∙ digits_least n x y below
    | no above ↦ let same : x ≡ suc n = omega arith in rw same refl
  ]

  lowest_digit :
      (x y : ℕ)
      → bitwise rest op (suc x) y ≡ bitwise rest op (suc x / 2) (y / 2) * 2 + op (suc x % 2) (y % 2)
  lowest_digit x y = omega (arith, digits_least x (suc x / 2) (y / 2) (omega arith))

pub bit_or_step : (x y : ℕ) → bit_or x y ≡ bit_or (x / 2) (y / 2) * 2 + max (x % 2) (y % 2)
bit_or_step zero y = simp bit_or-bitwise (omega arith)
bit_or_step (suc x) y = simp bit_or-bitwise (lowest_digit (λ k. k) max x y)

pub bit_and_step : (x y : ℕ) → bit_and x y ≡ bit_and (x / 2) (y / 2) * 2 + min (x % 2) (y % 2)
bit_and_step zero y = simp bit_and-bitwise (omega arith)
bit_and_step (suc x) y = simp bit_and-bitwise (lowest_digit (λ k. 0) min x y)

bit_or_half : (a b : ℕ) → bit_or a b / 2 ≡ bit_or (a / 2) (b / 2)
bit_or_half a b = omega (arith, bit_or_step a b)

bit_and_half : (a b : ℕ) → bit_and a b / 2 ≡ bit_and (a / 2) (b / 2)
bit_and_half a b = omega (arith, bit_and_step a b)

pub bit-bit_or : (i a b : ℕ) → bit i (bit_or a b) ≡ (bit i a || bit i b)
bit-bit_or zero a b = ground (arith, bit_or_step a b)
bit-bit_or (suc i) a b = rw bit_or_half (bit-bit_or i (a / 2) (b / 2))

pub bit-bit_and : (i a b : ℕ) → bit i (bit_and a b) ≡ (bit i a && bit i b)
bit-bit_and zero a b = ground (arith, bit_and_step a b)
bit-bit_and (suc i) a b = rw bit_and_half (bit-bit_and i (a / 2) (b / 2))

pub bit-zero : (i : ℕ) → bit i 0 ≡ false
bit-zero zero = refl
bit-zero (suc i) = bit-zero i

two_pow_half : (j : ℕ) → 2 ^ suc j / 2 ≡ 2 ^ j
two_pow_half j = omega (arith, pow-suc 2 j)

pub bit-two_pow : (i j : ℕ) → bit i (2 ^ j) ≡ (i == j)
bit-two_pow zero zero = refl
bit-two_pow zero (suc j) = ground (arith, pow-suc 2 j)
bit-two_pow (suc i) zero = rw bit-zero (ground arith)
bit-two_pow (suc i) (suc j) = rw (two_pow_half j) (rw (bit-two_pow i j) (ground arith))

bit_and-zero : (n a : ℕ) → a ≤ n → bit_and a 0 ≡ 0
bit_and-zero n zero h = refl
bit_and-zero zero (suc a) h = absurd (omega arith)
bit_and-zero (suc n) (suc a) h =
    omega (arith, bit_and_step (suc a) 0, bit_and-zero n (suc a / 2) (omega arith))

-- `n & (1 << i)` is the bit, in its place.
pub bit_and-two_pow : (i n : ℕ) → bit_and n (2 ^ i) ≡ (if bit i n then 2 ^ i else 0)
bit_and-two_pow zero n = ground (arith, bit_and_step n 1, bit_and-zero (n / 2) (n / 2) (le_refl _))
bit_and-two_pow (suc i) n =
    ground (arith, bit_and_step n (2 ^ suc i), pow-suc 2 i, bit_and-two_pow i (n / 2))

bit_and_self_fuel : (n a : ℕ) → a ≤ n → bit_and a a ≡ a
bit_and_self_fuel n zero h = refl
bit_and_self_fuel zero (suc a) h = absurd (omega arith)
bit_and_self_fuel (suc n) (suc a) h =
    omega (arith, bit_and_step (suc a) (suc a), bit_and_self_fuel n (suc a / 2) (omega arith))

pub bit_and_self : (a : ℕ) → bit_and a a ≡ a
bit_and_self a = bit_and_self_fuel a a (le_refl a)

-- A number below `2 ^ k` has no bit from `k` on, and `|` keeps the bound.
pub bit-ge : (k i n : ℕ) → n < 2 ^ k → k ≤ i → bit i n ≡ false
bit-ge zero i zero h le = bit-zero i
bit-ge zero i (suc n) h le = absurd (omega arith)
bit-ge (suc k) zero n h le = absurd (omega arith)
bit-ge (suc k) (suc i) n h le = bit-ge k i (n / 2) (omega (arith, pow-suc 2 k)) (omega arith)

pub bit_or-lt : (k a b : ℕ) → a < 2 ^ k → b < 2 ^ k → bit_or a b < 2 ^ k
bit_or-lt zero zero zero ha hb = omega arith
bit_or-lt zero zero (suc b) ha hb = absurd (omega arith)
bit_or-lt zero (suc a) b ha hb = absurd (omega arith)
bit_or-lt (suc k) a b ha hb = omega (
  arith,
  bit_or_step a b,
  pow-suc 2 k,
  bit_or-lt k (a / 2) (b / 2) (omega (arith, pow-suc 2 k)) (omega (arith, pow-suc 2 k)),
)

-- Numbers with the same bits are equal.
pub ext-bit : (k a b : ℕ) → a < 2 ^ k → b < 2 ^ k → ((i : ℕ) → i < k → bit i a ≡ bit i b) → a ≡ b
ext-bit zero a b ha hb h = omega arith
ext-bit (suc k) a b ha hb h = ground (
  arith,
  h 0,
  ext-bit k (a / 2) (b / 2) (omega (arith, pow-suc 2 k)) (omega (arith, pow-suc 2 k))
      (λ i q. h (suc i) (omega arith)),
)

pub bit_and-lt : (k a b : ℕ) → b < 2 ^ k → bit_and a b < 2 ^ k
bit_and-lt zero a zero h = omega (arith, bit_and-zero a a (le_refl a))
bit_and-lt zero a (suc b) h = absurd (omega arith)
bit_and-lt (suc k) a b h = omega (
  arith,
  bit_and_step a b,
  pow-suc 2 k,
  bit_and-lt k (a / 2) (b / 2) (omega (arith, pow-suc 2 k)),
)

differ_bits : (a b : ℕ) → a < 2 → b < 2 → differ a b ≡ (a + b) % 2
differ_bits zero b ha hb = omega arith
differ_bits (suc zero) zero ha hb = refl
differ_bits (suc zero) (suc b) ha hb = omega arith
differ_bits (suc (suc a)) b ha hb = absurd (omega arith)

pub bit_xor_step : (a b : ℕ) → bit_xor a b ≡ bit_xor (a / 2) (b / 2) * 2 + (a % 2 + b % 2) % 2
bit_xor_step zero b = simp bit_xor-bitwise (omega arith)
bit_xor_step (suc a) b =
    let one = differ_bits (suc a % 2) (b % 2) (omega arith) (omega arith) in
    simp bit_xor-bitwise (rw (lowest_digit (λ k. k) differ a b) (rw one refl))

pub bit_xor-lt : (k a b : ℕ) → a < 2 ^ k → b < 2 ^ k → bit_xor a b < 2 ^ k
bit_xor-lt zero zero zero ha hb = omega arith
bit_xor-lt zero zero (suc b) ha hb = absurd (omega arith)
bit_xor-lt zero (suc a) b ha hb = absurd (omega arith)
bit_xor-lt (suc k) a b ha hb = omega (
  arith,
  bit_xor_step a b,
  pow-suc 2 k,
  bit_xor-lt k (a / 2) (b / 2) (omega (arith, pow-suc 2 k)) (omega (arith, pow-suc 2 k)),
)

-- A test that passes below `n`, by evaluation.
unfoldable pub check_below : ℕ → (ℕ → Bool) → Bool
check_below zero p = true
check_below (suc n) p = p n && check_below n p

pub check_below-at : (n : ℕ) (p : ℕ → Bool) (i : ℕ) → check_below n p ≡ true → i < n → p i ≡ true
unfolding check_below
check_below-at zero p i h lt = absurd (omega arith)
check_below-at (suc n) p i h lt = ground (
  arith,
  λ (r : check_below n p ≡ true) (l : i < n). check_below-at n p i r l,
  λ (e : n ≡ i). ap p e,
)

-- Setting the bit above a word adds its weight.
pub bit_or-two_pow : (k v : ℕ) → v < 2 ^ k → bit_or (2 ^ k) v ≡ 2 ^ k + v
bit_or-two_pow zero zero h = refl
bit_or-two_pow zero (suc v) h = absurd (omega arith)
bit_or-two_pow (suc k) v h =
    let step : bit_or (2 ^ suc k) v ≡ bit_or (2 ^ k) (v / 2) * 2 + max (2 ^ suc k % 2) (v % 2) =
      rw two_pow_half at (bit_or_step (2 ^ suc k) v) in
    omega (arith, step, pow-suc 2 k, bit_or-two_pow k (v / 2) (omega (arith, pow-suc 2 k)))
