-- ===== src/Bus/Elf/Segments.antt =====
-- Which headers are loaded, and what the last one leaves in memory.
use pokedex.Prelude.{
  ℕ, ◌-◌, ◌≡◌, refl, true, some, List, [], ◌∷◌, ◌++◌, Outcome, ok, err, panic, ◌>>=◌, >>=-eq-ok,
  Profile, length, take, drop, length-take, length-drop, arith,
}
use pokedex.Bus.Memory.{BusError, NaiveMemory}
use pokedex.Bus.Memory.Laws.{InWords}
use pokedex.Bus.Space
use pokedex.Bus.Space.{Bus, Range, memory, find}
use pokedex.Bus.Space.Access.{read-write}
use pokedex.Bus.Elf.{
  ProgramHeader32, ProgramHeader, ph32, ph64, ElfError, slice, written, load_header, load_headers,
}

module _ (p : Profile) (buffer : List ℕ) where
  -- Headers are loaded in order, each on the bus that the ones before it leave.
  pub load_headers-append :
      (phs qhs : List ProgramHeader) (bus : Bus)
      → load_headers p buffer (phs ++ qhs) bus
        ≡ (load_headers p buffer phs bus >>= load_headers p buffer qhs)
  unfolding load_headers
  load_headers-append [] qhs bus = refl
  load_headers-append (ph64 ∷ phs) qhs bus = load_headers-append phs qhs bus
  load_headers-append (ph32 ph ∷ phs) qhs bus =
      bind_assoc (load_header p buffer ph bus) λ bus'. load_headers-append phs qhs bus'
    where
      bind_assoc :
          (m : Outcome ElfError Bus)
          → ((b : Bus)
              → load_headers p buffer (phs ++ qhs) b
                ≡ (load_headers p buffer phs b >>= load_headers p buffer qhs))
          → (m >>= load_headers p buffer (phs ++ qhs))
            ≡ ((m >>= load_headers p buffer phs) >>= load_headers p buffer qhs)
      bind_assoc (ok b) ih = ih b
      bind_assoc (err e) ih = refl
      bind_assoc panic ih = refl

  slice-eq-ok :
      (offset size : ℕ) {bytes : List ℕ}
      → slice buffer offset size ≡ ok bytes
      → (length bytes ≡ size) × (bytes ≡ take size (drop offset buffer))
  slice-eq-ok offset size h =
      ground (arith, length-take size (drop offset buffer), length-drop offset buffer)

  written-eq-ok :
      (addr size : ℕ) (m : Outcome BusError Bus) {bus : Bus}
      → written addr size m ≡ ok bus
      → m ≡ ok bus
  written-eq-ok addr size (ok b) h = cc
  written-eq-ok addr size (err e) h = cc
  written-eq-ok addr size panic h = cc

  -- If a loadable header loads into a memory (its size, the offset in it and the size in the file
  -- being words), the part of the file that it names can be read back at its address.
  pub read-load_header :
      (ph : ProgramHeader32) (bus : Bus) {bus' : Bus} {r : Range} {m : NaiveMemory}
      → ph.is_load ≡ true
      → find bus.address_space ph.virtual_addr ≡ some (r, memory m)
      → InWords m (ph.virtual_addr - r.start) ph.file_size
      → load_header p buffer ph bus ≡ ok bus'
      → Space.read p bus' ph.virtual_addr ph.file_size
        ≡ ok (take ph.file_size (drop ph.offset buffer))
  read-load_header ph bus is_load found words h =
      let (bytes, sliced, put) =
        >>=-eq-ok (slice buffer ph.offset ph.file_size) _ (rw (is_load, load_header) at h) in
      let (fit, is_bytes) = slice-eq-ok ph.offset ph.file_size sliced in
      let stored =
        written-eq-ok ph.virtual_addr ph.file_size (Space.write p bus ph.virtual_addr bytes) put in
      rw (← is_bytes, ← fit) (read-write p bus ph.virtual_addr bytes found stored (rw fit words))
