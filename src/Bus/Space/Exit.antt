-- ===== src/Bus/Space/Exit.antt =====
-- Which writes of the bus change the exit code.
use pokedex.Prelude.{
  sym, All, [], ◌∷◌, ℕ, ◌-◌, ◌+◌, ◌^◌, ◌<◌, ◌≡◌, ◌⊎◌, inl, inr, refl, none, some, Option-cases,
  List, arith, Bool-cases, Outcome, ok, >>=-eq-ok, given, Profile, length, set, from_le_bytes,
  bit_or, u32_mod, as_u32, ◌==◌, if◌then◌else◌, get_or-set_self, get_or-set_ne,
}
use pokedex.Util.Bits.{bit_or-two_pow}
use pokedex.Bus.Memory.{BusError}
use pokedex.Bus.Mmio
use pokedex.Bus.Mmio.{Cells, MmioRegs, MmioAddrDecoder, exit, offsets, reg_at, search_key, store}
use pokedex.Bus.Space.{
  Range, Addressable, memory, mmio, Bus, find, replace, write, device_write, try_get_exit_code,
}
use pokedex.Bus.Space.Access.{memory_write}

-- The write is one of four bytes to a register whose cell the bus watches.
pub record StoresExit (b : Bus) (addr : ℕ) (bytes : List ℕ) : Type 0 where
  pub range : Range
  pub decoder : MmioAddrDecoder
  pub index : ℕ
  pub found : find b.address_space addr ≡ some (range, mmio decoder)
  pub at_index : search_key (offsets decoder.regs) (addr - range.start) ≡ some index
  pub exits : reg_at decoder.regs index ≡ ok (exit (record { cell = b.exit_state }))
  pub word : length bytes ≡ 4

-- What a store to the registers does.
record Stored (d : MmioAddrDecoder) (cells : Cells) (offset : ℕ) (bytes : List ℕ) (cells' : Cells)
    : Type 0 where
  index : ℕ
  cell : ℕ
  word : length bytes ≡ 4
  at_index : search_key (offsets d.regs) offset ≡ some index
  register : reg_at d.regs index ≡ ok (exit (record { cell = cell }))
  is_cells : cells' ≡ set cells cell (bit_or (2 ^ 32) (from_le_bytes bytes))

stored_in :
    (cells : Cells) (v : ℕ) (r : MmioRegs) {cells' : Cells}
    → ◌≡◌ {A = Outcome BusError Cells} (ok (store r v cells)) (ok cells')
    → (c : ℕ) × (r ≡ exit (record { cell = c })) × (cells' ≡ set cells c (bit_or (2 ^ 32) v))
unfolding store
stored_in cells v (exit eic) {cells'} h =
    let same : set cells eic.cell (bit_or (2 ^ 32) v) ≡ cells' = cc in (eic.cell, refl, sym same)

stores :
    (d : MmioAddrDecoder) (cells : Cells) (offset : ℕ) (bytes : List ℕ) {cells' : Cells}
    → Mmio.do_bus_write d cells offset bytes ≡ ok cells'
    → Stored d cells offset bytes cells'
unfolding Mmio.do_bus_write
stores d cells offset bytes {cells'} h = elim (Bool-cases (length bytes == 4)) [
  | inr other ↦ let never = rw (other, Mmio.do_bus_write) at h in cc
  | inl word ↦ elim (Option-cases (search_key (offsets d.regs) offset)) [
    | inl missing ↦ let never = rw (word, missing, Mmio.do_bus_write) at h in cc
    | inr (i, there) ↦
        given
          (>>=-eq-ok (reg_at d.regs i) (λ r. ok (store r (from_le_bytes bytes) cells))
            (rw (word, there, Mmio.do_bus_write) at h))
          λ (r, register, made).
            let (c, is_exit, is_cells) = stored_in cells (from_le_bytes bytes) r made in
            record {
              index = i;
              cell = c;
              word = ground arith;
              at_index = there;
              register = rw (register, is_exit) refl;
              is_cells = is_cells;
            }
  ]
]

from_le_bytes-word :
    (bytes : List ℕ) → length bytes ≡ 4 → All (λ b. b < 256) bytes → from_le_bytes bytes < u32_mod
from_le_bytes-word (a ∷ b ∷ c ∷ d ∷ []) h (ha, (hb, (hc, (hd, _)))) = omega arith
from_le_bytes-word [] h _ = absurd (omega arith)
from_le_bytes-word (a ∷ []) h _ = absurd (omega arith)
from_le_bytes-word (a ∷ b ∷ []) h _ = absurd (omega arith)
from_le_bytes-word (a ∷ b ∷ c ∷ []) h _ = absurd (omega arith)
from_le_bytes-word (a ∷ b ∷ c ∷ d ∷ e ∷ rest) h _ = absurd (omega arith)

exit_word :
    (v : ℕ)
    → v < u32_mod
    → (if (2 ^ 32 + v) == 0 then none else some (as_u32 (2 ^ 32 + v))) ≡ some v
exit_word v h = ground arith

mmio_written :
    (b : Bus) (addr : ℕ) {b' : Bus} {device' : Addressable} {cells' cells₁ : Cells}
    {d : MmioAddrDecoder}
    → ◌≡◌ {A = Outcome BusError (Addressable × Cells)} (ok (mmio d, cells₁)) (ok (device', cells'))
    → ◌≡◌ {A = Outcome BusError Bus}
        (ok (record b { address_space = replace b.address_space addr device'; cells = cells' }))
        (ok b')
    → b' ≡ record b { address_space = replace b.address_space addr (mmio d); cells = cells₁ }
mmio_written b addr {b'} {device'} {cells'} {cells₁} {d} same made =
    let is_device : mmio d ≡ device' = cc in
    let is_cells : cells₁ ≡ cells' = cc in
    let is_b' : record b { address_space = replace b.address_space addr device'; cells = cells' }
        ≡ b' =
      cc in
    rw (← is_b', ← is_device, ← is_cells) refl

module _ (p : Profile) (b : Bus) (addr : ℕ) (bytes : List ℕ) {b' : Bus} {r : Range}
    {d : MmioAddrDecoder} (found : find b.address_space addr ≡ some (r, mmio d))
    (wrote : write p b addr bytes ≡ ok b') where
  mmio_write :
      (cells' : Cells) × (Mmio.do_bus_write d b.cells (addr - r.start) bytes ≡ ok cells')
      × (b' ≡ record b { address_space = replace b.address_space addr (mmio d); cells = cells' })
  unfolding write
  mmio_write =
      let ((device', cells'), made, is_b') =
        >>=-eq-ok (device_write p (mmio d) b.cells (addr - r.start) bytes)
          (λ (device', cells').
            ok (record b { address_space = replace b.address_space addr device'; cells = cells' }))
          (rw (found, write) at wrote) in
      let (cells₁, stored, is_device) =
        >>=-eq-ok (Mmio.do_bus_write d b.cells (addr - r.start) bytes)
          (λ cells'. ok (mmio d, cells')) made in
      (cells₁, stored, mmio_written b addr is_device is_b')

-- The register that a write reaches is one.
reached_once :
    (b : Bus) (addr : ℕ) (bytes : List ℕ) {r : Range} {d : MmioAddrDecoder} {cells' : Cells}
    → find b.address_space addr ≡ some (r, mmio d)
    → (s : Stored d b.cells (addr - r.start) bytes cells') → StoresExit b addr bytes
    → s.cell ≡ b.exit_state
reached_once b addr bytes {r} {d} found s e =
    let there = e.found in
    let ranges : e.range ≡ r = cc in
    let decoders : e.decoder ≡ d = cc in
    let at_index = rw (ranges, decoders) at e.at_index in
    let indices : e.index ≡ s.index = cc in
    let exits = rw (decoders, indices) at e.exits in let register = s.register in cc

-- A write of bytes that succeeds, where the bus watches one of its cells, either is of four bytes to a
-- register with that cell, and the exit code is then the word that they make, or it is not, and the
-- exit code is as it was.
pub try_get_exit_code-write :
    (p : Profile) (b : Bus) (addr : ℕ) (bytes : List ℕ) {b' : Bus}
    → write p b addr bytes ≡ ok b'
    → b.exit_state < length b.cells
    → All (λ x. x < 256) bytes
    → (StoresExit b addr bytes × (try_get_exit_code b' ≡ some (from_le_bytes bytes)))
      ⊎ ((¬ StoresExit b addr bytes) × (try_get_exit_code b' ≡ try_get_exit_code b))
unfolding write try_get_exit_code
try_get_exit_code-write p b addr bytes {b'} wrote watched small =
    elim (Option-cases (find b.address_space addr)) [
      | inl nowhere ↦ let never = rw (nowhere, write) at wrote in cc
      | inr ((r, memory m), found) ↦
          let (m', _, is_b') = memory_write p b addr bytes found wrote in
          inr ((λ s. let both = s.found in cc), rw is_b' refl)
      | inr ((r, mmio d), found) ↦
          given (mmio_write p b addr bytes found wrote) λ (cells', made, is_b').
            given (stores d b.cells (addr - r.start) bytes made) λ s.
              elim (Bool-cases (s.cell == b.exit_state)) [
                | inl same ↦ inl (
                  record {
                    range = r;
                    decoder = d;
                    index = s.index;
                    found = found;
                    at_index = s.at_index;
                    exits =
                        let equal : s.cell ≡ b.exit_state = ground arith in rw (← equal) s.register;
                    word = s.word;
                  },
                  let equal : s.cell ≡ b.exit_state = ground arith in
                      let v = from_le_bytes bytes in
                      let word = from_le_bytes-word bytes s.word small in
                      rw
                        (
                          is_b',
                          s.is_cells,
                          equal,
                          get_or-set_self b.cells b.exit_state (bit_or (2 ^ 32) v) 0 watched,
                          bit_or-two_pow 32 v word,
                        )
                        (exit_word v word),
                )
                | inr other ↦ inr (
                  (λ e. let same = reached_once b addr bytes found s e in ground arith),
                  rw
                      (
                        is_b',
                        s.is_cells,
                        get_or-set_ne b.cells s.cell b.exit_state
                            (bit_or (2 ^ 32) (from_le_bytes bytes)) 0 (λ same. ground arith),
                      )
                      refl,
                )
              ]
    ]
