-- ===== src/Bus/Space.antt =====
-- `Bus` of simulator/src/bus/mod.rs: the segments of the address space, in the order of the
-- configuration, and the cell that tells whether the program has exited. The cells are the heap of
-- the `AtomicU64` words, which the bus and the `exit` registers share.
pub mod Access
pub mod Exit
use pokedex.Prelude.{
  ℕ, ◌-◌, ◌%◌, Bool, ◌&&◌, Option, none, some, List, [], ◌∷◌, ltb, leb, ◌==◌, if◌then◌else◌,
  Outcome, ok, err, ◌>>=◌, Profile, get_or, as_u32,
}
use pokedex.Bus.Memory
use pokedex.Bus.Memory.{BusError, decode_error, NaiveMemory}
use pokedex.Bus.Mmio
use pokedex.Bus.Mmio.{Cells, MmioAddrDecoder}

-- `Range<u32>`
pub record Range : Type 0 where
  pub start : ℕ
  pub end : ℕ

-- `addr_space.contains(&addr)`
abbrev pub contains : Range → ℕ → Bool
contains r addr = leb r.start addr && ltb addr r.end

-- `Box<dyn Addressable>`
pub data Addressable : Type 0 where
  memory : NaiveMemory → Addressable
  mmio : MmioAddrDecoder → Addressable

abbrev pub Segment : Type 0
Segment = Range × Addressable

pub record Bus : Type 0 where
  pub address_space : List Segment
  pub exit_state : ℕ
  pub reset_vector : Option ℕ
  pub cells : Cells

-- `do_bus_read` of the device
abbrev pub device_read : Profile → Addressable → ℕ → ℕ → Outcome BusError (List ℕ)
device_read p (memory m) offset len = Memory.do_bus_read p m offset len
device_read p (mmio d) offset len = Mmio.do_bus_read d offset len

-- `do_bus_write` of the device: the device afterwards, and the cells
abbrev pub device_write :
    Profile → Addressable → Cells → ℕ → List ℕ → Outcome BusError (Addressable × Cells)
device_write p (memory m) cells offset bytes = do
  m' ← Memory.do_bus_write p m offset bytes
  ok (memory m', cells)
device_write p (mmio d) cells offset bytes = do
  cells' ← Mmio.do_bus_write d cells offset bytes
  ok (mmio d, cells')

-- `do_debugger_read` of the device, which the trait's own definition answers for the registers
abbrev pub device_debugger_read : Addressable → ℕ → ℕ → List ℕ
device_debugger_read (memory m) offset len = Memory.do_debugger_read m offset len
device_debugger_read (mmio d) offset len = []

-- `address_space.iter().find(...)`
unfoldable pub find : List Segment → ℕ → Option Segment
find [] addr = none
find ((r, device) ∷ segments) addr =
    let rest = find segments addr in if contains r addr then some (r, device) else rest

-- The segments with the device of the first one that contains the address replaced: `find` has
-- borrowed it from the list.
unfoldable pub replace : List Segment → ℕ → Addressable → List Segment
replace [] addr device' = []
replace ((r, device) ∷ segments) addr device' =
    let rest = replace segments addr device' in
    if contains r addr then (r, device') ∷ segments else (r, device) ∷ rest

unfoldable pub read : Profile → Bus → ℕ → ℕ → Outcome BusError (List ℕ)
read p b addr len = elim (find b.address_space addr) [
  | none ↦ err decode_error
  | some (r, device) ↦ device_read p device (addr - r.start) len
]

unfoldable pub write : Profile → Bus → ℕ → List ℕ → Outcome BusError Bus
write p b addr bytes = elim (find b.address_space addr) [
  | none ↦ err decode_error
  | some (r, device) ↦ do
    (device', cells') ← device_write p device b.cells (addr - r.start) bytes
    ok (record b { address_space = replace b.address_space addr device'; cells = cells' })
]

unfoldable pub debugger_read : Bus → ℕ → ℕ → List ℕ
debugger_read b addr len = elim (find b.address_space addr) [
  | none ↦ []
  | some (r, device) ↦ device_debugger_read device (addr - r.start) len
]

unfoldable pub try_get_exit_code : Bus → Option ℕ
try_get_exit_code b =
    let raw_state = get_or b.cells b.exit_state 0 in
    if raw_state == 0 then none else some (as_u32 raw_state)
