-- ===== src/Bus/Atomic/Laws.antt =====
-- The atomic operations stay on words, and the four extrema choose the right operand.
use pokedex.Prelude.{ℕ, ◌≤◌, ◌<◌, ◌≡◌, ◌⊎◌, true, arith, leb_ℤ, as_i32, u32_mod}
use pokedex.Util.Bits.{bit_and-lt, bit_or-lt, bit_xor-lt}
use pokedex.Bus.Atomic.{AtomicOp, do_arith_u32}

-- Every atomic operation on two 32-bit words gives a 32-bit word.
pub do_arith_u32-lt :
    (op : AtomicOp) (m c : ℕ) → m < u32_mod → c < u32_mod → do_arith_u32 op m c < u32_mod
unfolding do_arith_u32
do_arith_u32-lt AtomicOp.and m c hm hc = bit_and-lt 32 m c hc
do_arith_u32-lt AtomicOp.or m c hm hc = bit_or-lt 32 m c hm hc
do_arith_u32-lt AtomicOp.xor m c hm hc = bit_xor-lt 32 m c hm hc
do_arith_u32-lt _ m c hm hc = ground arith

abbrev pub Picks : ℕ → ℕ → ℕ → Type 0
Picks r m c = (r ≡ m) ⊎ (r ≡ c)

-- On two 32-bit words, `Min` and `Max` give the operand that is least or greatest as a signed
-- word, and `Minu` and `Maxu` the one that is least or greatest as an unsigned word.
pub do_arith_u32_extrema :
    (m c : ℕ)
    → m < u32_mod
    → c < u32_mod
    → (Picks (do_arith_u32 AtomicOp.minimum m c) m c
        × (leb_ℤ (as_i32 (do_arith_u32 AtomicOp.minimum m c)) (as_i32 m) ≡ true)
        × (leb_ℤ (as_i32 (do_arith_u32 AtomicOp.minimum m c)) (as_i32 c) ≡ true))
      × (Picks (do_arith_u32 AtomicOp.maximum m c) m c
          × (leb_ℤ (as_i32 m) (as_i32 (do_arith_u32 AtomicOp.maximum m c)) ≡ true)
          × (leb_ℤ (as_i32 c) (as_i32 (do_arith_u32 AtomicOp.maximum m c)) ≡ true))
      × (Picks (do_arith_u32 AtomicOp.minimum_u m c) m c
          × (do_arith_u32 AtomicOp.minimum_u m c ≤ m)
          × (do_arith_u32 AtomicOp.minimum_u m c ≤ c))
      × (Picks (do_arith_u32 AtomicOp.maximum_u m c) m c
          × (m ≤ do_arith_u32 AtomicOp.maximum_u m c)
          × (c ≤ do_arith_u32 AtomicOp.maximum_u m c))
unfolding do_arith_u32
do_arith_u32_extrema m c hm hc = (ground arith, ground arith, ground arith, ground arith)
