-- ===== src/Bus/Space/Access.antt =====
-- How an access of the bus reaches a device, and what it leaves as it was.
use pokedex.Prelude.{
  ℕ, zero, suc, ◌-◌, ◌≡◌, ◌≢◌, ◌↔◌, ◌⊎◌, inl, inr, refl, true, false, not, Option, none, some,
  Option-cases, List, [], ◌∷◌, Bool-cases, arith, Outcome, ok, err, panic, ◌>>=◌, >>=-eq-ok,
  Profile, debug, release, length, all,
}
use pokedex.Bus.Memory
use pokedex.Bus.Memory.{BusError, decode_error, device_error, NaiveMemory}
use pokedex.Bus.Memory.Laws.{InWords, do_bus_read-do_bus_write}
use pokedex.Bus.Mmio
use pokedex.Bus.Mmio.{Cells, MmioAddrDecoder, MmioRegs, exit, load, reg_at, offsets, search_key}
use pokedex.Bus.Space.{
  Range, contains, Addressable, memory, mmio, Segment, Bus, device_read, device_write, find,
  replace, read, write,
}

find-eq-some :
    (segments : List Segment) (addr : ℕ) {r : Range} {device : Addressable}
    → find segments addr ≡ some (r, device)
    → contains r addr ≡ true
unfolding find
find-eq-some [] addr h = cc
find-eq-some ((r, device) ∷ segments) addr {r = r₁} h = elim (Bool-cases (contains r addr)) [
  | inl inside ↦ let same : r₁ ≡ r = ground arith in rw same inside
  | inr outside ↦ find-eq-some segments addr (rw outside at h)
]

-- The segment that was found holds the new device.
pub find-replace :
    (segments : List Segment) (addr : ℕ) (device' : Addressable) {r : Range} {device : Addressable}
    → find segments addr ≡ some (r, device)
    → find (replace segments addr device') addr ≡ some (r, device')
unfolding find replace
find-replace [] addr device' h = cc
find-replace ((r, device) ∷ segments) addr device' {r = r₁} h =
    elim (Bool-cases (contains r addr)) [
      | inl inside ↦ let same : r ≡ r₁ = ground arith in rw inside (rw inside (rw same refl))
      | inr outside ↦ rw outside (rw outside (find-replace segments addr device' (rw outside at h)))
    ]

find-eq-none_iff :
    (segments : List Segment) (addr : ℕ)
    → (find segments addr ≡ none) ↔ (all (λ s. not (contains s.0 addr)) segments ≡ true)
unfolding find
find-eq-none_iff [] addr = (λ h. refl, λ h. refl)
find-eq-none_iff ((r, device) ∷ segments) addr = elim (Bool-cases (contains r addr)) [
  | inl inside ↦ rw inside (λ h. cc, λ h. cc)
  | inr outside ↦ rw outside (find-eq-none_iff segments addr)
]

abbrev the_panic : Outcome BusError (List ℕ)
the_panic = panic

-- Whatever register is loaded, the load panics.
reg_at-load :
    (regs : List (ℕ × MmioRegs)) (i : ℕ)
    → (reg_at regs i >>= λ r. load r >>= λ v. the_panic) ≡ panic
unfolding load
reg_at-load [] i = refl
reg_at-load ((o, exit eic) ∷ regs) zero = refl
reg_at-load (r ∷ regs) (suc i) = reg_at-load regs i

-- A read of a register panics, and other reads of the registers are device errors.
mmio_read-cases :
    (d : MmioAddrDecoder) (offset len : ℕ)
    → (Mmio.do_bus_read d offset len ≡ panic)
      ⊎ (Mmio.do_bus_read d offset len ≡ err (device_error "MMIORead"))
unfolding Mmio.do_bus_read
mmio_read-cases d offset len = elim (Option-cases (search_key (offsets d.regs) offset)) [
  | inl missing ↦ inr (rw (missing, Mmio.do_bus_read) refl)
  | inr (i, found) ↦ inl (rw (found, Mmio.do_bus_read) (reg_at-load d.regs i))
]

device_read-ne-decode_error :
    (p : Profile) (device : Addressable) (offset len : ℕ)
    → device_read p device offset len ≢ err decode_error
unfolding Memory.do_bus_read
device_read-ne-decode_error debug (memory m) offset len h = ground arith
device_read-ne-decode_error release (memory m) offset len h = ground arith
device_read-ne-decode_error p (mmio d) offset len h = ground (arith, mmio_read-cases d offset len)

-- Where the segment that was found does not reach, the search finds what it found before.
find-replace_elsewhere :
    (segments : List Segment) (addr q : ℕ) (device' : Addressable) {r : Range}
    {device : Addressable}
    → find segments addr ≡ some (r, device)
    → contains r q ≡ false
    → find (replace segments addr device') q ≡ find segments q
unfolding find replace
find-replace_elsewhere [] addr q device' h away = refl
find-replace_elsewhere ((r, device) ∷ segments) addr q device' {r = r₁} h away =
    elim (Bool-cases (contains r addr)) [
      | inl inside ↦ let same : r ≡ r₁ = ground arith in rw inside (rw same (rw away refl))
      | inr outside ↦
          let rest = find-replace_elsewhere segments addr q device' (rw outside at h) away in
          rw outside (rw rest refl)
    ]

-- A read of the bus is a decode error exactly when no segment contains the address.
pub read-decode_error_iff :
    (p : Profile) (b : Bus) (addr len : ℕ)
    → (read p b addr len ≡ err decode_error)
      ↔ (all (λ s. not (contains s.0 addr)) b.address_space ≡ true)
unfolding read
read-decode_error_iff p b addr len =
    let (to, from) = find-eq-none_iff b.address_space addr in
    elim (Option-cases (find b.address_space addr)) [
      | inl nowhere ↦ (λ h. to nowhere, λ h. rw (nowhere, read) refl)
      | inr ((r, device), found) ↦ (
        λ h.
            absurd
              (device_read-ne-decode_error p device (addr - r.start) len (rw (found, read) at h)),
        λ h. absurd (none-ne-some (from h) found),
      )
    ]
  where
    none-ne-some : {o : Option Segment} {s : Segment} → o ≡ none → o ≡ some s → ⊥
    none-ne-some h1 h2 = ground arith

memory_written :
    (b : Bus) (addr : ℕ) {b' : Bus} {device' : Addressable} {cells' : Cells} {m' : NaiveMemory}
    → ◌≡◌ {A = Outcome BusError (Addressable × Cells)}
        (ok (memory m', b.cells))
        (ok (device', cells'))
    → ◌≡◌ {A = Outcome BusError Bus}
        (ok (record b { address_space = replace b.address_space addr device'; cells = cells' }))
        (ok b')
    → b' ≡ record b { address_space = replace b.address_space addr (memory m') }
memory_written b addr {b'} {device'} {cells'} {m'} same made =
    let is_device : memory m' ≡ device' = cc in
    let is_cells : b.cells ≡ cells' = cc in
    let is_b' : record b { address_space = replace b.address_space addr device'; cells = cells' }
        ≡ b' =
      cc in
    rw (← is_b', ← is_device, ← is_cells) refl

module _ (p : Profile) (b : Bus) (addr : ℕ) (bytes : List ℕ) {b' : Bus} {r : Range}
    {m : NaiveMemory} (found : find b.address_space addr ≡ some (r, memory m))
    (wrote : write p b addr bytes ≡ ok b') where
  pub memory_write :
      (m' : NaiveMemory) × (Memory.do_bus_write p m (addr - r.start) bytes ≡ ok m')
      × (b' ≡ record b { address_space = replace b.address_space addr (memory m') })
  unfolding write
  memory_write =
      let ((device', cells'), made, is_b') =
        >>=-eq-ok (device_write p (memory m) b.cells (addr - r.start) bytes)
          (λ (device', cells').
            ok (record b { address_space = replace b.address_space addr device'; cells = cells' }))
          (rw (found, write) at wrote) in
      let (m', stored, is_device) =
        >>=-eq-ok (Memory.do_bus_write p m (addr - r.start) bytes) (λ m'. ok (memory m', b.cells))
          made in
      (m', stored, memory_written b addr is_device is_b')

  -- If a write that reaches a memory succeeds (the size of the memory, the offset in it and the
  -- number of bytes being words), a read of the same range of the bus gives the bytes written.
  pub read-write :
      InWords m (addr - r.start) (length bytes) → read p b' addr (length bytes) ≡ ok bytes
  unfolding read
  read-write w =
      let (m', stored, is_b') = memory_write in
      rw is_b' (
        rw (find-replace b.address_space addr (memory m') found, read)
          (do_bus_read-do_bus_write p m (addr - r.start) bytes w stored))

  -- If a write that reaches a memory succeeds, a read at an address outside the segment of that
  -- memory gives what it gave before, error or panic included.
  pub read-write_elsewhere : (q n : ℕ) → contains r q ≡ false → read p b' q n ≡ read p b q n
  unfolding read
  read-write_elsewhere q n away =
      let (m', stored, is_b') = memory_write in
      rw is_b'
        (rw (find-replace_elsewhere b.address_space addr q (memory m') found away, read) refl)

-- A write that reaches the registers stores in the cells.
pub write_mmio :
    (p : Profile) (b : Bus) (addr : ℕ) (bytes : List ℕ) {r : Range} {d : MmioAddrDecoder}
    {cells' : Cells}
    → find b.address_space addr ≡ some (r, mmio d)
    → Mmio.do_bus_write d b.cells (addr - r.start) bytes ≡ ok cells'
    → write p b addr bytes
      ≡ ok (record b { address_space = replace b.address_space addr (mmio d); cells = cells' })
unfolding write
write_mmio p b addr bytes found stored = rw (found, write) (rw stored refl)

-- Of two segments the second is found where it alone contains the address.
pub find-second :
    (r s : Range) (m n : Addressable) (addr : ℕ)
    → contains r addr ≡ false
    → contains s addr ≡ true
    → find ((r, m) ∷ (s, n) ∷ []) addr ≡ some (s, n)
unfolding find
find-second r s m n addr outside inside = rw outside (rw inside refl)
