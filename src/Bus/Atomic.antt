-- ===== src/Bus/Atomic.antt =====
-- `AtomicOp` of simulator/src/bus/mod.rs.
pub mod Laws
use pokedex.Prelude.{
  ℕ, ◌+◌, min, max, bit_and, bit_or, bit_xor, if◌then◌else◌, as_u32, as_i32, from_i32, ℤ, leb_ℤ,
}

pub data AtomicOp : Type 0 where
  swap add and or xor minimum minimum_u maximum maximum_u : AtomicOp

-- `i32::min` and `i32::max`
abbrev pub min_i32 : ℤ → ℤ → ℤ
min_i32 a b = if leb_ℤ a b then a else b

abbrev pub max_i32 : ℤ → ℤ → ℤ
max_i32 a b = if leb_ℤ a b then b else a

unfoldable pub do_arith_u32 : AtomicOp → ℕ → ℕ → ℕ
do_arith_u32 AtomicOp.swap mem_value core_value = core_value
do_arith_u32 AtomicOp.add mem_value core_value = as_u32 (mem_value + core_value)
do_arith_u32 AtomicOp.and mem_value core_value = bit_and mem_value core_value
do_arith_u32 AtomicOp.or mem_value core_value = bit_or mem_value core_value
do_arith_u32 AtomicOp.xor mem_value core_value = bit_xor mem_value core_value
do_arith_u32 AtomicOp.minimum mem_value core_value =
    from_i32 (min_i32 (as_i32 mem_value) (as_i32 core_value))
do_arith_u32 AtomicOp.maximum mem_value core_value =
    from_i32 (max_i32 (as_i32 mem_value) (as_i32 core_value))
do_arith_u32 AtomicOp.minimum_u mem_value core_value = min mem_value core_value
do_arith_u32 AtomicOp.maximum_u mem_value core_value = max mem_value core_value
