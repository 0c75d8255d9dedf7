-- ===== src/Bus/Elf.antt =====
-- simulator/src/bus/elf.rs. The parser of ELF files is a package; what it gives is a parameter.
pub mod Segments
use pokedex.Prelude.{
  ℕ, ◌+◌, Bool, true, false, not, ◌&&◌, Option, none, some, List, [], ◌∷◌, ltb, if◌then◌else◌,
  Outcome, ok, err, panic, ensure, ◌>>=◌, ◌>>◌, Profile, u32_mod, length, take, drop,
}
use pokedex.Bus.Memory.{BusError}
use pokedex.Bus.Space
use pokedex.Bus.Space.{Bus}

-- the fields of a program header that are read
pub record ProgramHeader32 : Type 0 where
  pub is_load : Bool
  pub offset : ℕ
  pub virtual_addr : ℕ
  pub file_size : ℕ

pub data ProgramHeader : Type 0 where
  ph32 : ProgramHeader32 → ProgramHeader
  ph64 : ProgramHeader

pub record ElfFile : Type 0 where
  pub is_risc_v : Bool
  pub program : List ProgramHeader
  pub entry_point : ℕ

pub data ElfError : Type 0 where
  not_risc_v : ElfError
  fail_loading : BusError → ℕ → ℕ → ElfError

-- `&buffer[offset..offset + size]`; the sum of two `u32` is in the range of `usize`.
abbrev pub slice : List ℕ → ℕ → ℕ → Outcome ElfError (List ℕ)
slice buffer offset size =
    if ltb (length buffer) (offset + size) then panic else ok (take size (drop offset buffer))

-- `if let Err(err) = bus.write(addr, slice) { bail!(...) }`
abbrev pub written : ℕ → ℕ → Outcome BusError Bus → Outcome ElfError Bus
written addr size (ok bus) = ok bus
written addr size (err e) = err (fail_loading e addr size)
written addr size panic = panic

module _ (p : Profile) (buffer : List ℕ) where
  abbrev pub load_header : ProgramHeader32 → Bus → Outcome ElfError Bus
  load_header ph bus = if not ph.is_load then ok bus else do
    bytes ← slice buffer ph.offset ph.file_size
    written ph.virtual_addr ph.file_size (Space.write p bus ph.virtual_addr bytes)

  -- the loop over `program_iter`
  unfoldable pub load_headers : List ProgramHeader → Bus → Outcome ElfError Bus
  load_headers [] bus = ok bus
  load_headers (ph64 ∷ phs) bus = load_headers phs bus
  load_headers (ph32 ph ∷ phs) bus = do bus' ← load_header ph bus; load_headers phs bus'

-- `parse` is `ElfFile::new`, which gives none on an error.
unfoldable pub load_elf :
    (List ℕ → Option ElfFile) → Profile → Bus → List ℕ → Outcome ElfError (ℕ × Bus)
unfolding load_headers
load_elf parse p bus buffer = elim (parse buffer) [
  | none ↦ panic
  | some elf_file ↦ do
    ensure elf_file.is_risc_v not_risc_v
    bus' ← load_headers p buffer elf_file.program bus
    if ltb elf_file.entry_point u32_mod then ok (elf_file.entry_point, bus') else panic
]
