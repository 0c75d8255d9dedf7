-- ===== src/Gdb/Registers.antt =====
-- `RiscvRegId` of simulator/src/gdb/arch.rs, for the widths of `TargetArch`: XLEN = 32, VLEN = 256.
use pokedex.Prelude.{
  ℕ, ◌+◌, ◌-◌, ◌/◌, ◌<◌, ◌≡◌, ◌&&◌, not, Option, none, some, leb, ◌==◌, if◌then◌else◌, arith, as_u8,
  as_u16,
}

pub data RiscvRegId : Type 0 where
  x f : ℕ → RiscvRegId
  pc : RiscvRegId
  csr : ℕ → RiscvRegId
  priv : RiscvRegId
  v : ℕ → RiscvRegId

abbrev pub xlen : ℕ
xlen = 32

abbrev pub vlen : ℕ
vlen = 256

-- the `match` of `from_raw_id`
abbrev pub number_and_size : ℕ → Option (RiscvRegId × ℕ)
number_and_size id =
    if leb id 31
    then some (x (as_u8 id), xlen / 8)
    else if id == 32
    then some (pc, xlen / 8)
    else if leb id 64
    then some (f (as_u8 (id - 33)), xlen / 8)
    else if leb id 4160
    then some (csr (as_u16 (id - 65)), xlen / 8)
    else if id == 4161
    then some (priv, 1)
    else if leb id 4193 && not (vlen == 0)
    then some (v (as_u8 (id - 4162)), vlen / 8)
    else none

-- `NonZero::new(size)?`
abbrev pub non_zero : RiscvRegId × ℕ → Option (RiscvRegId × ℕ)
non_zero (id, size) = if size == 0 then none else some (id, size)

unfoldable pub from_raw_id : ℕ → Option (RiscvRegId × ℕ)
from_raw_id id = elim (number_and_size id) [ none ↦ none | some r ↦ non_zero r ]

-- The numbering of the registers, and their sizes in bytes, written the other way round.
abbrev pub raw_id : RiscvRegId → ℕ
raw_id (x i) = i
raw_id pc = 32
raw_id (f i) = 33 + i
raw_id (csr i) = 65 + i
raw_id priv = 4161
raw_id (v i) = 4162 + i

abbrev pub size_of : RiscvRegId → ℕ
size_of priv = 1
size_of (v i) = 32
size_of _ = 4

abbrev pub IsIndexed : RiscvRegId → Type 0
IsIndexed (x i) = i < 32
IsIndexed (f i) = i < 32
IsIndexed (csr i) = i < 4096
IsIndexed (v i) = i < 32
IsIndexed _ = Unit {0}

-- A register with an index in range is what its number decodes to, with its size.
pub from_raw_id-raw_id :
    (r : RiscvRegId) → IsIndexed r → from_raw_id (raw_id r) ≡ some (r, size_of r)
unfolding from_raw_id
from_raw_id-raw_id (x i) h = ground arith
from_raw_id-raw_id pc h = ground arith
from_raw_id-raw_id (f i) h = ground arith
from_raw_id-raw_id (csr i) h = ground arith
from_raw_id-raw_id priv h = ground arith
from_raw_id-raw_id (v i) h = ground arith
