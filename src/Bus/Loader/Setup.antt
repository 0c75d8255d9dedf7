-- ===== src/Bus/Loader/Setup.antt =====
-- The bus that a configuration gives: its segments, and the register that ends a run.
use pokedex.Prelude.{
  ℕ, ◌+◌, ◌-◌, ◌^◌, ◌<◌, ◌≡◌, inl, inr, refl, true, false, Option, none, some, Option-cases, List,
  [], ◌∷◌, ◌++◌, map, from_le_bytes, String, ◌==◌, if◌then◌else◌, Bool-cases, arith, Outcome, ok,
  >>=-eq-ok, Profile, add_u32, u32_mod, as_u32, get_or, set, length, bit_or,
}
use pokedex.Bus.Memory.{zeroed}
use pokedex.Bus.Mmio.{Cells, MmioAddrDecoder, LoadError, try_build_from, do_bus_write}
use native.Mathlib.Nat.{add-sub_cancel_left}
use pokedex.Bus.Space.Access.{write_mmio, find-second}
use pokedex.Bus.Mmio.Build.{try_build_from-single}
use pokedex.Util.Bits.{bit_or-two_pow}
use pokedex.Bus.Space.{
  Range, contains, Addressable, memory, mmio, Segment, Bus, find, write, try_get_exit_code,
}
use pokedex.Bus.Loader.{
  PokedexConfig, MmapConfig, sram_node, mmio_node, configuration, Loaded, load_nodes,
  overlapped_segment, finish, load_from_config,
}

-- What the two nodes of a configuration load.
pub record TwoNodes (p : Profile) (ram_base ram_length io_base io_length : ℕ)
    (mmap : List (String × ℕ)) (cells : Cells) (out : Loaded) : Type 0 where
  pub ram_end : ℕ
  pub io_end : ℕ
  pub decoder : MmioAddrDecoder
  pub cell : ℕ
  pub heap : Cells
  pub ram_ends : ◌≡◌ {A = Outcome LoadError ℕ} (add_u32 p ram_base ram_length) (ok ram_end)
  pub io_ends : ◌≡◌ {A = Outcome LoadError ℕ} (add_u32 p io_base io_length) (ok io_end)
  pub built : try_build_from mmap cells ≡ ok (decoder, cell, heap)
  pub loaded : out ≡ (
    (record { start = ram_base; end = ram_end }, memory (zeroed ram_length))
        ∷ (record { start = io_base; end = io_end }, mmio decoder)
        ∷ [],
    some cell,
    heap,
  )

consed :
    {x : Segment} {a rest : List Segment} {s state : Option ℕ} {c heap : Cells} {out : Loaded}
    → ◌≡◌ {A = Outcome LoadError Loaded} (ok (a, s, c)) (ok (rest, state, heap))
    → ◌≡◌ {A = Outcome LoadError Loaded} (ok (x ∷ rest, state, heap)) (ok out)
    → out ≡ (x ∷ a, s, c)
consed {x} {a} {rest} {s} {state} {c} {heap} {out} h1 h2 =
    let segments : a ≡ rest = cc in
    let states : s ≡ state = cc in
    let heaps : c ≡ heap = cc in
    let outs : (x ∷ rest, state, heap) ≡ out = cc in rw (← outs, segments, states, heaps) refl

load_nodes-TwoNodes :
    (p : Profile) (name : String) (rb rl ib il : ℕ) (mmap : List (String × ℕ)) (cells : Cells)
    {out : Loaded}
    → load_nodes p (sram_node name rb rl ∷ mmio_node ib il mmap ∷ []) cells ≡ ok out
    → TwoNodes p rb rl ib il mmap cells out
unfolding load_nodes
load_nodes-TwoNodes p name rb rl ib il mmap cells h =
    let (ram_end, e1, h1) = >>=-eq-ok (add_u32 p rb rl) _ h in
    let ((rest, state, heap), e2, h2) =
      >>=-eq-ok (load_nodes p (mmio_node ib il mmap ∷ []) cells) _ h1 in
    let ((d, s, cells₁), e3, h3) = >>=-eq-ok (try_build_from mmap cells) _ e2 in
    let (io_end, e4, h4) = >>=-eq-ok (add_u32 p ib il) _ h3 in
    record {
      ram_end = ram_end;
      io_end = io_end;
      decoder = d;
      cell = s;
      heap = cells₁;
      ram_ends = e1;
      io_ends = e4;
      built = e3;
      loaded = consed h4 h2;
    }

-- Two segments that the check lets pass have no address in common.
overlapped_segment-two :
    (r s : Range) (m n : Addressable) (addr : ℕ)
    → overlapped_segment ((r, m) ∷ (s, n) ∷ []) ≡ none
    → contains r addr ≡ true
    → contains s addr ≡ false
unfolding overlapped_segment
overlapped_segment-two r s m n addr none_found inside = ground arith

finish-eq-ok :
    (config : PokedexConfig) (segments : List Segment) (s : ℕ) (cells : Cells) {b : Bus}
    → finish config (segments, some s, cells) ≡ ok b
    → (overlapped_segment segments ≡ none)
      × (b ≡ record {
        address_space = segments;
        exit_state = s;
        reset_vector = config.reset_vector;
        cells = cells;
      })
finish-eq-ok config segments s cells {b} h = elim (Option-cases (overlapped_segment segments)) [
  | inl apart ↦ (apart, let h' = rw (apart, finish) at h in cc)
  | inr (r, found) ↦ let h' = rw (found, finish) at h in cc
]

-- What a configuration gives.
pub record IsConfigured (p : Profile) (config : PokedexConfig) (cells : Cells) (b : Bus)
    : Type 0 where
  pub ram_end : ℕ
  pub io_end : ℕ
  pub decoder : MmioAddrDecoder
  pub ram_ends :
      ◌≡◌ {A = Outcome LoadError ℕ} (add_u32 p config.sram.base config.sram.length) (ok ram_end)
  pub io_ends :
      ◌≡◌ {A = Outcome LoadError ℕ} (add_u32 p config.mmio.base config.mmio.length) (ok io_end)
  pub built :
      try_build_from (map (λ (m : MmapConfig). (m.name, m.offset)) config.mmio.mmaps) cells
      ≡ ok (decoder, b.exit_state, b.cells)
  pub segments :
      b.address_space
      ≡ (record { start = config.sram.base; end = ram_end }, memory (zeroed config.sram.length))
        ∷ (record { start = config.mmio.base; end = io_end }, mmio decoder)
        ∷ []
  pub apart :
      (addr : ℕ)
      → contains (record { start = config.sram.base; end = ram_end }) addr ≡ true
      → contains (record { start = config.mmio.base; end = io_end }) addr ≡ false
  pub resets : b.reset_vector ≡ config.reset_vector

-- If a configuration loads, the bus has two segments: a memory of zeros at the base of `sram`, and
-- at the base of `mmio` the decoder built from the register map, whose exit cell the bus watches.
-- The ends are the sums as the build profile computes them, no address lies in both segments, and
-- the reset vector is the configured one.
pub load_from_config-IsConfigured :
    (p : Profile) (config : PokedexConfig) (cells : Cells) {b : Bus}
    → load_from_config p config cells ≡ ok b
    → IsConfigured p config cells b
unfolding load_from_config
load_from_config-IsConfigured p config cells {b} h =
    let (out, e1, h1) = >>=-eq-ok (load_nodes p (configuration config) cells) (finish config) h in
    let two =
      load_nodes-TwoNodes p "single-naive-memory" config.sram.base config.sram.length
        config.mmio.base config.mmio.length _ cells e1 in
    let (apart, is_b) = finish-eq-ok config _ two.cell two.heap (rw two.loaded at h1) in
    rw is_b (record {
      ram_end = two.ram_end;
      io_end = two.io_end;
      decoder = two.decoder;
      ram_ends = two.ram_ends;
      io_ends = two.io_ends;
      built = two.built;
      segments = refl;
      apart = λ addr inside.
          overlapped_segment-two _ _ (memory (zeroed config.sram.length)) (mmio two.decoder) addr
            apart inside;
      resets = refl;
    })

get_or-append_last : (xs : List ℕ) (v : ℕ) → get_or (xs ++ v ∷ []) (length xs) 0 ≡ v
get_or-append_last [] v = refl
get_or-append_last (x ∷ xs) v = get_or-append_last xs v

get_or-set_last :
    (xs : List ℕ) (v w : ℕ) → get_or (set (xs ++ v ∷ []) (length xs) w) (length xs) 0 ≡ w
get_or-set_last [] v w = refl
get_or-set_last (x ∷ xs) v w = get_or-set_last xs v w

outside_ram :
    {p : Profile} {config : PokedexConfig} {cells : Cells} {b : Bus}
    (c : IsConfigured p config cells b) (addr : ℕ)
    → contains (record { start = config.mmio.base; end = c.io_end }) addr ≡ true
    → find b.address_space addr
      ≡ some (record { start = config.mmio.base; end = c.io_end }, mmio c.decoder)
outside_ram {config = config} c addr inside =
    elim (Bool-cases (contains (record { start = config.sram.base; end = c.ram_end }) addr)) [
      | inl both ↦ let never = c.apart addr both in cc
      | inr outside ↦ rw c.segments (
          find-second _ _ (memory (zeroed config.sram.length)) (mmio c.decoder) addr outside inside)
    ]

exit_word :
    (v : ℕ)
    → v < u32_mod
    → (if (2 ^ 32 + v) == 0 then none else some (as_u32 (2 ^ 32 + v))) ≡ some v
exit_word v h = ground arith

-- A configured bus whose register map has one entry.
module _ (p : Profile) (config : PokedexConfig) (cells : Cells) (entry : MmapConfig)
    (one : config.mmio.mmaps ≡ entry ∷ []) {b : Bus}
    (h : load_from_config p config cells ≡ ok b) where
  fresh_exit :
      (d : MmioAddrDecoder)
      → try_build_from (map (λ (m : MmapConfig). (m.name, m.offset)) config.mmio.mmaps) cells
        ≡ ok (d, b.exit_state, b.cells)
      → (b.exit_state ≡ length cells)
        × (b.cells ≡ cells ++ 0 ∷ [])
        × ((heap : Cells) (bytes : List ℕ)
            → length bytes ≡ 4
            → do_bus_write d heap entry.offset bytes
              ≡ ok (set heap b.exit_state (bit_or (2 ^ 32) (from_le_bytes bytes))))
  fresh_exit d built = try_build_from-single entry.name entry.offset cells (rw one at built)

  -- If a configuration with one entry in its register map loads, the bus has no exit code yet.
  pub try_get_exit_code-load_from_config : try_get_exit_code b ≡ none
  unfolding try_get_exit_code
  try_get_exit_code-load_from_config =
      let c = load_from_config-IsConfigured p config cells h in
      let (is_s, is_cells, _) = fresh_exit c.decoder c.built in
      rw (is_s, is_cells) (rw get_or-append_last refl)

  -- If a configuration with one entry in its register map loads, the register is inside the segment
  -- and the segment inside the address space, then a write of four bytes that make a word at the
  -- register's address succeeds, and after it the exit code of the bus is that word.
  pub try_get_exit_code-write_exit :
      (bytes : List ℕ)
      → length bytes ≡ 4
      → from_le_bytes bytes < u32_mod
      → entry.offset < config.mmio.length
      → config.mmio.base + config.mmio.length < u32_mod
      → (b' : Bus) × (write p b (config.mmio.base + entry.offset) bytes ≡ ok b')
        × (try_get_exit_code b' ≡ some (from_le_bytes bytes))
  unfolding try_get_exit_code
  try_get_exit_code-write_exit bytes four word inside below =
      let c = load_from_config-IsConfigured p config cells h in
      let (is_s, is_cells, stores) = fresh_exit c.decoder c.built in
      let addr = config.mmio.base + entry.offset in
      let io : Range = record { start = config.mmio.base; end = c.io_end } in
      let ends = c.io_ends in
      let io_end : c.io_end ≡ config.mmio.base + config.mmio.length = ground arith in
      let in_io : contains io addr ≡ true = rw io_end (ground arith) in
      let found = outside_ram c addr in_io in
      let v = from_le_bytes bytes in
      let stored : do_bus_write c.decoder b.cells (addr - config.mmio.base) bytes
          ≡ ok (set b.cells b.exit_state (bit_or (2 ^ 32) v)) =
        rw (add-sub_cancel_left config.mmio.base entry.offset) (stores b.cells bytes four) in
      (
        _,
        write_mmio p b addr bytes found stored,
        rw (is_s, is_cells, get_or-set_last cells 0 (bit_or (2 ^ 32) v), bit_or-two_pow 32 v word)
            (exit_word v word),
      )
