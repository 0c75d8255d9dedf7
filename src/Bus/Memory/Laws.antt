-- ===== src/Bus/Memory/Laws.antt =====
-- Which accesses succeed, in both build profiles, and what a write leaves to be read.
use pokedex.Prelude.{
  ℕ, ◌+◌, ◌≤◌, ◌<◌, ◌≡◌, ◌⊎◌, refl, ◌∙◌, sym, ap, List, ltb, leb, if◌then◌else◌, arith, Outcome, ok,
  err, panic, Profile, debug, release, u32_mod, length, get_or, take, drop, splice, length-splice,
  get_or-splice, length-take, length-drop, get_or-take, get_or-drop, ext-get_or,
}
use native.Mathlib.Nat.{add-sub_cancel_left}
use pokedex.Bus.Memory.{BusError, device_error, NaiveMemory, do_bus_read, do_bus_write}

-- The outcome of an access of `len` bytes at `offset`, whatever the profile: an error where the
-- range leaves the memory, except that a range past the address space panics.
abbrev pub ranged : {A : Type 0} → ℕ → ℕ → ℕ → BusError → A → Outcome BusError A
ranged size offset len e a =
    if leb size offset
    then err e
    else if ltb size (offset + len)
    then (if ltb (offset + len) u32_mod then err e else panic)
    else ok a

-- A memory that an address range can name, an offset and a length that are words.
pub record InWords (m : NaiveMemory) (offset len : ℕ) : Type 0 where
  pub size : length m.memory < u32_mod
  pub offset_lt : offset < u32_mod
  pub len_lt : len < u32_mod

-- With memory size, offset and length words, a read in either build profile gives the bytes of the
-- range if the range is inside, panics if it reaches beyond the address space from an offset
-- inside, and is a device error otherwise.
pub do_bus_read_lem :
    (p : Profile) (m : NaiveMemory) (offset len : ℕ)
    → InWords m offset len
    → do_bus_read p m offset len
      ≡ ranged
          (length m.memory)
          offset
          len
          (device_error "NaiveMemoryRead")
          (take len (drop offset m.memory))
unfolding do_bus_read
do_bus_read_lem debug m offset len w = ground arith
do_bus_read_lem release m offset len w = ground arith

-- With memory size, offset and length words, a write in either build profile replaces the bytes of
-- the range if the range is inside, panics if it reaches beyond the address space from an offset
-- inside, and is a device error otherwise.
pub do_bus_write_lem :
    (p : Profile) (m : NaiveMemory) (offset : ℕ) (bytes : List ℕ)
    → InWords m offset (length bytes)
    → do_bus_write p m offset bytes
      ≡ ranged
          (length m.memory)
          offset
          (length bytes)
          (device_error "NaiveMemoryWrite")
          (record { memory = splice offset bytes m.memory })
unfolding do_bus_write
do_bus_write_lem debug m offset bytes w = ground arith
do_bus_write_lem release m offset bytes w = ground arith

module _ (xs ys : List ℕ) (o : ℕ) (fit : o + length ys ≤ length xs) where
  -- The bytes written are there.
  pub slice-splice_self : take (length ys) (drop o (splice o ys xs)) ≡ ys
  slice-splice_self =
      ext-get_or _ ys 0
        (omega (
          arith,
          length-take (length ys) (drop o (splice o ys xs)),
          length-drop o (splice o ys xs),
          length-splice o ys xs fit,
        ))
        (λ k lt. ground (
          arith,
          length-take (length ys) (drop o (splice o ys xs)),
          get_or-take (length ys) (drop o (splice o ys xs)) k 0,
          get_or-drop o (splice o ys xs) k 0,
          get_or-splice o ys xs (o + k) 0 fit,
          ap (λ (j : ℕ). get_or ys j 0) (add-sub_cancel_left o k),
        ))

  -- The bytes of a range beside it are as they were.
  pub slice-splice_apart :
      (q n : ℕ)
      → (q + n ≤ o) ⊎ (o + length ys ≤ q)
      → take n (drop q (splice o ys xs)) ≡ take n (drop q xs)
  slice-splice_apart q n apart =
      ext-get_or _ _ 0
        (omega (
          arith,
          length-take n (drop q (splice o ys xs)),
          length-take n (drop q xs),
          length-drop q (splice o ys xs),
          length-drop q xs,
          length-splice o ys xs fit,
        ))
        (λ k lt. ground (
          arith,
          length-take n (drop q (splice o ys xs)),
          get_or-take n (drop q (splice o ys xs)) k 0,
          get_or-take n (drop q xs) k 0,
          get_or-drop q (splice o ys xs) k 0,
          get_or-drop q xs k 0,
          get_or-splice o ys xs (q + k) 0 fit,
        ))

module _ (p : Profile) (m : NaiveMemory) (offset : ℕ) (bytes : List ℕ) {m' : NaiveMemory}
    (w : InWords m offset (length bytes)) (wrote : do_bus_write p m offset bytes ≡ ok m') where
  pub do_bus_write-eq-ok :
      (offset < length m.memory)
      × (offset + length bytes ≤ length m.memory)
      × (m' ≡ record { memory = splice offset bytes m.memory })
  do_bus_write-eq-ok = ground (arith, do_bus_write_lem p m offset bytes w)

  -- A write keeps the size of the memory.
  pub length-do_bus_write : length m'.memory ≡ length m.memory
  length-do_bus_write =
      let (_, fit, is_splice) = do_bus_write-eq-ok in
      rw is_splice (length-splice offset bytes m.memory fit)

  -- If a write to a memory succeeds (memory size, offset and length being words), a read of the
  -- same range of the new memory gives the bytes that were written.
  pub do_bus_read-do_bus_write : do_bus_read p m' offset (length bytes) ≡ ok bytes
  do_bus_read-do_bus_write =
      let (lt, fit, is_splice) = do_bus_write-eq-ok in
      let size = length-do_bus_write in
      do_bus_read_lem p m' offset (length bytes)
        (record { size = rw size w.size; offset_lt = w.offset_lt; len_lt = w.len_lt })
      ∙ rw is_splice (
          ground (
            arith,
            slice-splice_self m.memory bytes offset fit,
            length-splice offset bytes m.memory fit,
          ))

  -- If a write to a memory succeeds (memory size, offset and length being words), a read at a word
  -- offset and length whose range lies wholly before or after the written one gives what it gave
  -- before the write, error or panic included.
  pub do_bus_read-do_bus_write_apart :
      (q n : ℕ)
      → q < u32_mod
      → n < u32_mod
      → (q + n ≤ offset) ⊎ (offset + length bytes ≤ q)
      → do_bus_read p m' q n ≡ do_bus_read p m q n
  do_bus_read-do_bus_write_apart q n hq hn apart =
      let (lt, fit, is_splice) = do_bus_write-eq-ok in
      let size = length-do_bus_write in
      do_bus_read_lem p m' q n (record { size = rw size w.size; offset_lt = hq; len_lt = hn })
      ∙ rw is_splice (
          rw (length-splice offset bytes m.memory fit)
            (rw (slice-splice_apart m.memory bytes offset fit q n apart) refl))
      ∙ sym (do_bus_read_lem p m q n (record { size = w.size; offset_lt = hq; len_lt = hn }))
