-- ===== src/Bus/Mmio.antt =====
-- `Syscon`, `MmioRegs` and `MMIOAddrDecoder` of simulator/src/bus/mod.rs. An `Arc<AtomicU64>` is an
-- index into `Cells`, the heap of the atomic words, so two holders of one index share the word.
pub mod Search
pub mod Build
use pokedex.Prelude.{
  ℕ, zero, suc, ◌+◌, ◌-◌, ◌/◌, ◌^◌, bit_or, Bool, true, false, not, Option, none, some, List, [],
  ◌∷◌, ◌++◌, map, String, str_eq, ltb, leb, ◌==◌, if◌then◌else◌, Outcome, ok, err, panic, ensure,
  ◌>>=◌, ◌>>◌, length, get_elem?, get_or, set, from_le_bytes,
}
use pokedex.Bus.Memory.{BusError, device_error}

abbrev pub Cells : Type 0
Cells = List ℕ

pub record Syscon : Type 0 where
  pub cell : ℕ

pub data MmioRegs : Type 0 where
  exit : Syscon → MmioRegs

pub record MmioAddrDecoder : Type 0 where
  pub regs : List (ℕ × MmioRegs)

-- `MmioRegs::load`
unfoldable pub load : MmioRegs → Outcome BusError ℕ
load (exit _) = panic

-- `MmioRegs::store`
unfoldable pub store : MmioRegs → ℕ → Cells → Cells
store (exit eic) v cells = set cells eic.cell (bit_or (2 ^ 32) v)

abbrev pub offsets : List (ℕ × MmioRegs) → List ℕ
offsets = map (λ r. r.0)

-- The loop of the standard library's `binary_search_by`: `size` slots from `base` on are left.
unfoldable pub narrow : ℕ → List ℕ → ℕ → ℕ → ℕ → ℕ
narrow zero keys target base size = base
narrow (suc fuel) keys target base size = elim (leb size 1) [
  | true ↦ base
  | false ↦
      let half = size / 2 in
      let mid = base + half in
      narrow fuel keys target (if ltb target (get_or keys mid 0) then base else mid) (size - half)
]

-- `binary_search_by(|(reg, _)| reg.cmp(&offset))`: the index of a match, if there is one. Each
-- round of the loop takes a slot at least, so their number is enough fuel.
unfoldable pub search_key : List ℕ → ℕ → Option ℕ
search_key [] target = none
search_key (k ∷ ks) target =
    let base = narrow (length (k ∷ ks)) (k ∷ ks) target 0 (length (k ∷ ks)) in
    if get_or (k ∷ ks) base 0 == target then some base else none

-- `self.regs[i].1`
abbrev pub reg_at : List (ℕ × MmioRegs) → ℕ → Outcome BusError MmioRegs
reg_at regs i = elim (get_elem? regs i) [ none ↦ panic | some (_, r) ↦ ok r ]

unfoldable pub do_bus_write : MmioAddrDecoder → Cells → ℕ → List ℕ → Outcome BusError Cells
do_bus_write d cells offset bytes =
    if not (length bytes == 4)
    then panic
    else let new_val = from_le_bytes bytes in
      elim (search_key (offsets d.regs) offset) [
        | none ↦ err (device_error "MMIOWrite")
        | some i ↦ do r ← reg_at d.regs i; ok (store r new_val cells)
      ]

-- The length of the destination matters only after the load, which panics.
unfoldable pub do_bus_read : MmioAddrDecoder → ℕ → ℕ → Outcome BusError (List ℕ)
do_bus_read d offset len = elim (search_key (offsets d.regs) offset) [
  | none ↦ err (device_error "MMIORead")
  | some i ↦ do r ← reg_at d.regs i; v ← load r; panic
]

pub data LoadError : Type 0 where
  unsupported_device : String → LoadError
  no_mmio_node overlapped : LoadError

-- The loop of `try_build_from`; `Arc::new` takes the next free cell.
abbrev pub Built : Type 0
Built = Cells × List (ℕ × MmioRegs) × Option ℕ

unfoldable pub build_regs : List (String × ℕ) → Built → Outcome LoadError Built
build_regs [] built = ok built
build_regs ((name, offset) ∷ config) (cells, regs, exit_state) =
    let s = length cells in
    let rest =
      build_regs config
        (cells ++ 0 ∷ [], regs ++ (offset, exit (record { cell = s })) ∷ [], some s) in
    if str_eq name "exit" then rest else err (unsupported_device name)

-- `sort_unstable_by_key`; a sort by insertion gives one of the orders that it may give.
unfoldable pub insert_by_key : ℕ × MmioRegs → List (ℕ × MmioRegs) → List (ℕ × MmioRegs)
insert_by_key r [] = r ∷ []
insert_by_key r (s ∷ rs) = if leb r.0 s.0 then r ∷ (s ∷ rs) else s ∷ insert_by_key r rs

unfoldable pub sort_by_key : List (ℕ × MmioRegs) → List (ℕ × MmioRegs)
unfolding insert_by_key
sort_by_key [] = []
sort_by_key (r ∷ rs) = insert_by_key r (sort_by_key rs)

abbrev pub is_empty : List (ℕ × MmioRegs) → Bool
is_empty [] = true
is_empty (_ ∷ _) = false

abbrev pub expect_exit : Option ℕ → Outcome LoadError ℕ
expect_exit none = panic
expect_exit (some s) = ok s

-- The decoder, the exit state, and the cells with the new ones at their end.
unfoldable pub try_build_from :
    List (String × ℕ) → Cells → Outcome LoadError (MmioAddrDecoder × ℕ × Cells)
unfolding build_regs sort_by_key
try_build_from config cells = do
  (cells', regs, exit_state) ← build_regs config (cells, [], none)
  ensure (not (is_empty regs)) no_mmio_node
  s ← expect_exit exit_state
  ok (record { regs = sort_by_key regs }, s, cells')
