-- ===== src/Bus/Tests.antt =====
-- The devices of simulator/src/bus/mod.rs at concrete values.
use pokedex.Prelude.{
  List, ◌⊎◌, get_or, ◌+◌, ℕ, ◌<◌, ◌≡◌, inr, refl, true, arith, [], ◌∷◌, ok, debug, release, u32_mod,
  take, drop,
}
use pokedex.Bus.Memory.{NaiveMemory, do_bus_read, do_bus_write}
use pokedex.Bus.Memory.Laws.{InWords, do_bus_read-do_bus_write, do_bus_read-do_bus_write_apart}
use pokedex.Prelude.{inl, ◌^◌, none, some, ◌↔◌, all, not, replicate, set, err, bit_or}
use pokedex.Bus.Memory.{decode_error, zeroed}
use pokedex.Bus.Mmio
use pokedex.Bus.Elf.{ProgramHeader32, load_header}
use pokedex.Bus.Elf.Segments.{read-load_header}
use pokedex.Bus.Mmio.{MmioAddrDecoder, exit, try_build_from}
use pokedex.Bus.Mmio.Build.{do_bus_write-try_build_from}
use pokedex.Bus.Space.{contains, memory, mmio, Bus, find, replace, read, write, try_get_exit_code}
use pokedex.Bus.Space.Access.{read-decode_error_iff, read-write}
use pokedex.Bus.Space.Exit.{StoresExit, try_get_exit_code-write}
use pokedex.Bus.Loader.{MmapConfig, PokedexConfig, load_from_config}
use pokedex.Bus.Loader.Setup.{
  IsConfigured, load_from_config-IsConfigured, try_get_exit_code-load_from_config,
  try_get_exit_code-write_exit,
}

abbrev eight : NaiveMemory
eight = record { memory = 1 ∷ 2 ∷ 3 ∷ 4 ∷ 5 ∷ 6 ∷ 7 ∷ 8 ∷ [] }

eight-InWords : (offset len : ℕ) → offset < u32_mod → len < u32_mod → InWords eight offset len
eight-InWords offset len ho hl = record { size = omega arith; offset_lt = ho; len_lt = hl }

abbrev written : NaiveMemory
written = record { memory = 1 ∷ 2 ∷ 9 ∷ 9 ∷ 5 ∷ 6 ∷ 7 ∷ 8 ∷ [] }

writes : do_bus_write release eight 2 (9 ∷ 9 ∷ []) ≡ ok written
unfolding do_bus_write
writes = refl

do_bus_read-do_bus_write_example : do_bus_read release written 2 2 ≡ ok (9 ∷ 9 ∷ [])
do_bus_read-do_bus_write_example =
    do_bus_read-do_bus_write release eight 2 (9 ∷ 9 ∷ [])
      (eight-InWords 2 2 (omega arith) (omega arith)) writes

do_bus_read-do_bus_write_apart_example :
    do_bus_read release written 4 4 ≡ do_bus_read release eight 4 4
do_bus_read-do_bus_write_apart_example =
    do_bus_read-do_bus_write_apart release eight 2 (9 ∷ 9 ∷ [])
      (eight-InWords 2 2 (omega arith) (omega arith)) writes 4 4 (omega arith) (omega arith)
      (inr (omega arith))

abbrev exit_entry : MmapConfig
exit_entry = record { name = "exit"; offset = 4 }

abbrev small : PokedexConfig
small = record {
  reset_vector = some 0x2000;
  mmio = record { base = 0x1000; length = 16; mmaps = exit_entry ∷ [] };
  sram = record { base = 0x2000; length = 8 };
}

abbrev decoder : MmioAddrDecoder
decoder = record { regs = (4, exit (record { cell = 0 })) ∷ [] }

abbrev small_bus : Bus
small_bus = record {
  address_space =
      (record { start = 0x2000; end = 0x2008 }, memory (record { memory = replicate 8 0 }))
      ∷ (record { start = 0x1000; end = 0x1010 }, mmio decoder)
      ∷ [];
  exit_state = 0;
  reset_vector = some 0x2000;
  cells = 0 ∷ [];
}

small_loads : load_from_config debug small [] ≡ ok small_bus
unfolding load_from_config try_build_from zeroed
small_loads = refl

load_from_config-IsConfigured_example : IsConfigured debug small [] small_bus
load_from_config-IsConfigured_example = load_from_config-IsConfigured debug small [] small_loads

try_get_exit_code-load_from_config_example : try_get_exit_code small_bus ≡ none
try_get_exit_code-load_from_config_example =
    try_get_exit_code-load_from_config debug small [] exit_entry refl small_loads

try_get_exit_code-write_exit_example :
    (b' : Bus) × (write debug small_bus 0x1004 (7 ∷ 1 ∷ 0 ∷ 0 ∷ []) ≡ ok b')
    × (try_get_exit_code b' ≡ some 263)
try_get_exit_code-write_exit_example =
    try_get_exit_code-write_exit debug small [] exit_entry refl small_loads (7 ∷ 1 ∷ 0 ∷ 0 ∷ [])
      refl (omega arith) (omega arith) (omega arith)

-- Two registers, of which the second has the lower offset.
abbrev two_registers : MmioAddrDecoder
two_registers = record {
  regs = (0, exit (record { cell = 2 })) ∷ (4, exit (record { cell = 1 })) ∷ [];
}

abbrev two_offsets : List ℕ
two_offsets = 4 ∷ 0 ∷ []

do_bus_write-try_build_from_example :
    (j : ℕ) × (j < 2)
    × (get_or two_offsets j 0 ≡ 0)
    × (1 + j < 3)
    × (Mmio.do_bus_write two_registers (5 ∷ 0 ∷ 0 ∷ []) 0 (1 ∷ 0 ∷ 0 ∷ 0 ∷ [])
        ≡ ok (set (5 ∷ 0 ∷ 0 ∷ []) (1 + j) (bit_or (2 ^ 32) 1)))
unfolding try_build_from
do_bus_write-try_build_from_example =
    do_bus_write-try_build_from (("exit", 4) ∷ ("exit", 0) ∷ []) (9 ∷ []) {d = two_registers}
      {s = 2} {cells' = 9 ∷ 0 ∷ 0 ∷ []} refl 0 (inr (inl refl)) (5 ∷ 0 ∷ 0 ∷ [])
      (1 ∷ 0 ∷ 0 ∷ 0 ∷ []) refl refl

read-decode_error_iff_example :
    (read debug small_bus 0x3000 4 ≡ err decode_error)
    ↔ (all (λ s. not (contains s.0 0x3000)) small_bus.address_space ≡ true)
read-decode_error_iff_example = read-decode_error_iff debug small_bus 0x3000 4

abbrev stored : Bus
stored = record small_bus {
  address_space =
      (
        record { start = 0x2000; end = 0x2008 },
        memory (record { memory = 0 ∷ 0 ∷ 0 ∷ 0 ∷ 9 ∷ 8 ∷ 0 ∷ 0 ∷ [] }),
      )
      ∷ (record { start = 0x1000; end = 0x1010 }, mmio decoder)
      ∷ [];
}

small_found :
    find small_bus.address_space 0x2004
    ≡ some (record { start = 0x2000; end = 0x2008 }, memory (record { memory = replicate 8 0 }))
unfolding find
small_found = refl

small_stores : write debug small_bus 0x2004 (9 ∷ 8 ∷ []) ≡ ok stored
unfolding write find replace do_bus_write
small_stores = refl

read-write_example : read debug stored 0x2004 2 ≡ ok (9 ∷ 8 ∷ [])
read-write_example =
    read-write debug small_bus 0x2004 (9 ∷ 8 ∷ []) small_found small_stores
      (record { size = omega arith; offset_lt = omega arith; len_lt = omega arith })

abbrev exited : Bus
exited = record small_bus { cells = (2 ^ 32 + 263) ∷ [] }

exits_now : write debug small_bus 0x1004 (7 ∷ 1 ∷ 0 ∷ 0 ∷ []) ≡ ok exited
unfolding write find replace Mmio.do_bus_write Mmio.search_key Mmio.narrow Mmio.store
exits_now = refl

try_get_exit_code-write_example :
    (StoresExit small_bus 0x1004 (7 ∷ 1 ∷ 0 ∷ 0 ∷ []) × (try_get_exit_code exited ≡ some 263))
    ⊎ ((¬ StoresExit small_bus 0x1004 (7 ∷ 1 ∷ 0 ∷ 0 ∷ []))
        × (try_get_exit_code exited ≡ try_get_exit_code small_bus))
try_get_exit_code-write_example =
    try_get_exit_code-write debug small_bus 0x1004 (7 ∷ 1 ∷ 0 ∷ 0 ∷ []) exits_now (omega arith)
      (omega arith, (omega arith, (omega arith, (omega arith, tt))))

abbrev header : ProgramHeader32
header = record { is_load = true; offset = 1; virtual_addr = 0x2004; file_size = 2 }

header_loads : load_header debug (7 ∷ 9 ∷ 8 ∷ []) header small_bus ≡ ok stored
unfolding write find replace do_bus_write
header_loads = refl

read-load_header_example : read debug stored 0x2004 2 ≡ ok (take 2 (drop 1 (7 ∷ 9 ∷ 8 ∷ [])))
read-load_header_example =
    read-load_header debug (7 ∷ 9 ∷ 8 ∷ []) header small_bus refl small_found
      (record { size = omega arith; offset_lt = omega arith; len_lt = omega arith }) header_loads
