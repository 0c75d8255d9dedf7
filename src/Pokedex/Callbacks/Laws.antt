-- ===== src/Pokedex/Callbacks/Laws.antt =====
-- What an access of the core leaves in memory.
use pokedex.Prelude.{
  ℕ, ◌-◌, ◌%◌, ◌<◌, ◌≡◌, ◌≢◌, ◌⊎◌, inl, inr, refl, sym, true, some, List, ◌==◌, Outcome, ok, err,
  panic, Profile, from_le_bytes, to_le_bytes, from_le_bytes-to_le_bytes, u32_mod,
}
use pokedex.Bus.Atomic.{AtomicOp, do_arith_u32}
use pokedex.Bus.Atomic.Laws.{do_arith_u32-lt}
use pokedex.Bus.Memory.{BusError, NaiveMemory}
use pokedex.Bus.Memory.Laws.{InWords}
use pokedex.Bus.Space
use pokedex.Bus.Space.{Bus, Range, Addressable, memory, find}
use pokedex.Bus.Space.Access.{read-write}
use pokedex.Pokedex.Callbacks.{Global, BusResult, done, failed, handle, read_mem_u32, amo_mem_u32}

pub handle-eq-ok :
    {A B : Type 0} (o : Outcome BusError A) (f : A → Outcome BusError B)
    (k : BusError → Outcome BusError B) {b : B}
    → handle o f k ≡ ok b
    → ((a : A) × (o ≡ ok a) × (f a ≡ ok b)) ⊎ ((e : BusError) × (k e ≡ ok b))
handle-eq-ok (ok a) f k h = inl (a, refl, h)
handle-eq-ok (err e) f k h = inr (e, h)
handle-eq-ok panic f k h = cc

failed-ne-done :
    {A : Type 0} {e : BusError} {a : A} {g g' : Global}
    → ◌≢◌ {A = Outcome BusError (BusResult A × Global)} (ok (failed e, g)) (ok (done a, g'))
failed-ne-done h = cc

module _ (p : Profile) (g : Global) (addr : ℕ) {r : Range} {m : NaiveMemory}
    (found : find g.bus.address_space addr ≡ some (r, memory m))
    (words : InWords m (addr - r.start) 4) (aligned : (addr % 4 == 0) ≡ true) where
  read_after_write :
      (v : ℕ) {bus : Bus}
      → v < u32_mod
      → Space.write p g.bus addr (to_le_bytes 4 v) ≡ ok bus
      → read_mem_u32 p (record g { bus = bus }) addr ≡ ok (done v, record g { bus = bus })
  unfolding read_mem_u32
  read_after_write v hv wrote =
      rw
        (
          aligned,
          read-write p g.bus addr (to_le_bytes 4 v) found wrote words,
          from_le_bytes-to_le_bytes 4 v hv,
        )
        refl

  read_here :
      {bytes : List ℕ}
      → Space.read p g.bus addr 4 ≡ ok bytes
      → read_mem_u32 p g addr ≡ ok (done (from_le_bytes bytes), g)
  unfolding read_mem_u32
  read_here got = rw (aligned, got) refl

  amo_parts :
      (op : AtomicOp) (v old : ℕ) {g' : Global}
      → amo_mem_u32 p g addr op v ≡ ok (done old, g')
      → (bytes : List ℕ) × (bus : Bus) × (Space.read p g.bus addr 4 ≡ ok bytes)
        × (from_le_bytes bytes ≡ old)
        × (Space.write p g.bus addr (to_le_bytes 4 (do_arith_u32 op old v)) ≡ ok bus)
        × (g' ≡ record g { bus = bus })
  unfolding amo_mem_u32
  amo_parts op v old h =
      elim (handle-eq-ok (Space.read p g.bus addr 4) _ (λ e. ok (failed e, g)) h) [
        | inr (e, k) ↦ absurd (failed-ne-done k)
        | inl (bytes, got, h1) ↦
            elim (handle-eq-ok
              (Space.write p g.bus addr (to_le_bytes 4 (do_arith_u32 op (from_le_bytes bytes) v))) _
              (λ e. ok (failed e, g)) h1) [
                | inr (e, k) ↦ absurd (failed-ne-done k)
                | inl (bus, put, h2) ↦
                    let olds : from_le_bytes bytes ≡ old = cc in
                    let gs : record g { bus = bus } ≡ _ = cc in
                    (bytes, bus, got, olds, rw olds at put, sym gs)
              ]
      ]

  -- If an atomic operation at an aligned address in a memory succeeds with a word as the old value,
  -- the old value is what a read gave before it, and after it a read gives the result of the
  -- operation on the old value and the operand, a word.
  pub read_mem_u32-amo_mem_u32 :
      (op : AtomicOp) (v old : ℕ) {g' : Global}
      → v < u32_mod
      → old < u32_mod
      → amo_mem_u32 p g addr op v ≡ ok (done old, g')
      → (read_mem_u32 p g addr ≡ ok (done old, g))
        × (read_mem_u32 p g' addr ≡ ok (done (do_arith_u32 op old v), g'))
  read_mem_u32-amo_mem_u32 op v old hv hold h =
      let (bytes, bus, got, olds, put, is_g') = amo_parts op v old h in
      (
        rw (← olds) (read_here got),
        rw is_g' (read_after_write (do_arith_u32 op old v) (do_arith_u32-lt op old v hold hv) put),
      )
