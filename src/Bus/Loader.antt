-- ===== src/Bus/Loader.antt =====
-- simulator/src/bus/loader.rs, from a parsed configuration to a bus.
pub mod Setup
use pokedex.Prelude.{
  ℕ, ◌+◌, Option, none, some, List, [], ◌∷◌, map, String, ltb, leb, if◌then◌else◌, Outcome, ok, err,
  panic, ◌>>=◌, Profile, add_u32,
}
use pokedex.Bus.Memory.{NaiveMemory, zeroed}
use pokedex.Bus.Mmio.{Cells, LoadError, overlapped, try_build_from}
use pokedex.Bus.Space.{Range, Addressable, memory, mmio, Segment, Bus}

pub record MmapConfig : Type 0 where
  pub name : String
  pub offset : ℕ

pub record MmioConfig : Type 0 where
  pub base : ℕ
  pub length : ℕ
  pub mmaps : List MmapConfig

pub record SramConfig : Type 0 where
  pub base : ℕ
  pub length : ℕ

pub record PokedexConfig : Type 0 where
  pub reset_vector : Option ℕ
  pub mmio : MmioConfig
  pub sram : SramConfig

pub data AddressSpaceDescNode : Type 0 where
  mmio_node : ℕ → ℕ → List (String × ℕ) → AddressSpaceDescNode
  sram_node : String → ℕ → ℕ → AddressSpaceDescNode

-- the array `configuration`
abbrev pub configuration : PokedexConfig → List AddressSpaceDescNode
configuration config =
    sram_node "single-naive-memory" config.sram.base config.sram.length
    ∷ mmio_node config.mmio.base config.mmio.length
        (map (λ (m : MmapConfig). (m.name, m.offset)) config.mmio.mmaps)
    ∷ []

-- `segments` and `exit_state`, with the heap of the cells
abbrev pub Loaded : Type 0
Loaded = List Segment × Option ℕ × Cells

-- The loop over the nodes; a segment is pushed at the end.
unfoldable pub load_nodes : Profile → List AddressSpaceDescNode → Cells → Outcome LoadError Loaded
load_nodes p [] cells = ok ([], none, cells)
load_nodes p (sram_node name base length ∷ nodes) cells = do
  end ← add_u32 p base length
  (segments, exit_state, cells') ← load_nodes p nodes cells
  ok ((record { start = base; end = end }, memory (zeroed length)) ∷ segments, exit_state, cells')
load_nodes p (mmio_node base length mmap ∷ nodes) cells = do
  (mmio_decoder, controllers, cells₁) ← try_build_from mmap cells
  end ← add_u32 p base length
  (segments, exit_state, cells₂) ← load_nodes p nodes cells₁
  ok (
    (record { start = base; end = end }, mmio mmio_decoder) ∷ segments,
    elim exit_state [ none ↦ some controllers | some later ↦ some later ],
    cells₂,
  )

-- `sort_by_key`, which is stable
abbrev pub insert_by_start : Range → List Range → List Range
insert_by_start r [] = r ∷ []
insert_by_start r (s ∷ rs) = if leb r.start s.start then r ∷ (s ∷ rs) else s ∷ insert_by_start r rs

abbrev pub sort_by_start : List Range → List Range
sort_by_start [] = []
sort_by_start (r ∷ rs) = insert_by_start r (sort_by_start rs)

-- The loop over the windows of two: the last range that starts before the one before it ends.
abbrev pub last_overlap : Range → List Range → Option Range → Option Range
last_overlap addr1 [] found = found
last_overlap addr1 (addr2 ∷ rs) found =
    last_overlap addr2 rs (if ltb addr2.start addr1.end then some addr2 else found)

abbrev pub overlap_of : List Range → Option Range
overlap_of [] = none
overlap_of (r ∷ rs) = last_overlap r rs none

unfoldable pub overlapped_segment : List Segment → Option Range
overlapped_segment segments = overlap_of (sort_by_start (map (λ s. s.0) segments))

abbrev pub unwrap : Option ℕ → Outcome LoadError ℕ
unwrap none = panic
unwrap (some s) = ok s

-- The checks and the bus at the end of `load_from_config_str`.
abbrev pub finish : PokedexConfig → Loaded → Outcome LoadError Bus
finish config (segments, exit_state, cells) = elim (overlapped_segment segments) [
  | some _ ↦ err overlapped
  | none ↦ do
    s ← unwrap exit_state
    ok (record {
      address_space = segments;
      exit_state = s;
      reset_vector = config.reset_vector;
      cells = cells;
    })
]

-- `load_from_config_str` after `knuffel::parse`
unfoldable pub load_from_config : Profile → PokedexConfig → Cells → Outcome LoadError Bus
unfolding load_nodes overlapped_segment
load_from_config p config cells = do
  loaded ← load_nodes p (configuration config) cells
  finish config loaded
