-- ===== src/Pokedex/Callbacks.antt =====
-- `Global` of simulator/src/pokedex/simulator.rs: the memory accesses of the core. A method returns
-- the result that the core is given and the new `self`; the outer outcome is a panic or neither.
pub mod Laws
use pokedex.Prelude.{
  ℕ, ◌+◌, ◌%◌, ◌^◌, Bool, ◌==◌, ltb, if◌then◌else◌, List, Outcome, ok, err, panic, assert, ◌>>=◌,
  ◌>>◌, Profile, debug, release, from_le_bytes, to_le_bytes,
}
use pokedex.Bus.Atomic.{AtomicOp, do_arith_u32}
use pokedex.Bus.Memory.{BusError}
use pokedex.Bus.Space
use pokedex.Bus.Space.{Bus}

pub record Statistic : Type 0 where
  pub fetch_count : ℕ
  pub step_count : ℕ

-- `Statistic::new`
abbrev pub no_statistic : Statistic
no_statistic = record { fetch_count = 0; step_count = 0 }

pub record Global : Type 0 where
  pub bus : Bus
  pub stats : Statistic

-- `BusResult<T>`
pub data BusResult (A : Type 0) : Type 0 where
  done : A → BusResult A
  failed : BusError → BusResult A

-- a result and `self`
abbrev pub Answered : Type 0 → Type 0
Answered A = Outcome BusError (BusResult A × Global)

-- Without an error both go on: an error of the bus is a value here, and a panic is not.
abbrev pub handle {ℓ} :
    {A : Type 0} {B : Type ℓ} {E : Type 0}
    → Outcome BusError A
    → (A → Outcome E B)
    → (BusError → Outcome E B)
    → Outcome E B
handle (ok a) f g = f a
handle (err e) f g = g e
handle panic f g = panic

abbrev overflow_u64 : Profile → Outcome BusError ℕ
overflow_u64 debug = panic
overflow_u64 release = ok 0

-- `n += 1` on `u64`
abbrev pub increment_u64 : Profile → ℕ → Outcome BusError ℕ
increment_u64 p n = if ltb (n + 1) (2 ^ 64) then ok (n + 1) else overflow_u64 p

module _ (p : Profile) where
  -- `self.bus.read(addr, &mut data).map(|_| from_le_bytes(data))`
  abbrev pub read_word : Global → ℕ → ℕ → Answered ℕ
  read_word g addr len =
      handle (Space.read p g.bus addr len) (λ bytes. ok (done (from_le_bytes bytes), g))
        (λ e. ok (failed e, g))

  -- `self.bus.write(addr, &value.to_le_bytes())`
  abbrev pub write_word : Global → ℕ → ℕ → ℕ → Answered (Unit {0})
  write_word g addr len value =
      handle (Space.write p g.bus addr (to_le_bytes len value))
        (λ bus. ok (done tt, record g { bus = bus })) (λ e. ok (failed e, g))

  unfoldable pub inst_fetch_2 : Global → ℕ → Answered ℕ
  inst_fetch_2 g addr = do
    assert (addr % 2 == 0)
    count ← increment_u64 p g.stats.fetch_count
    read_word (record g { stats = record g.stats { fetch_count = count } }) addr 2

  unfoldable pub read_mem_u8 : Global → ℕ → Answered ℕ
  read_mem_u8 g addr = read_word g addr 1

  unfoldable pub read_mem_u16 : Global → ℕ → Answered ℕ
  read_mem_u16 g addr = do assert (addr % 2 == 0); read_word g addr 2

  unfoldable pub read_mem_u32 : Global → ℕ → Answered ℕ
  read_mem_u32 g addr = do assert (addr % 4 == 0); read_word g addr 4

  unfoldable pub write_mem_u8 : Global → ℕ → ℕ → Answered (Unit {0})
  write_mem_u8 g addr value = write_word g addr 1 value

  unfoldable pub write_mem_u16 : Global → ℕ → ℕ → Answered (Unit {0})
  write_mem_u16 g addr value = write_word g addr 2 value

  unfoldable pub write_mem_u32 : Global → ℕ → ℕ → Answered (Unit {0})
  write_mem_u32 g addr value = write_word g addr 4 value

  unfoldable pub amo_mem_u32 : Global → ℕ → AtomicOp → ℕ → Answered ℕ
  unfolding do_arith_u32
  amo_mem_u32 g addr op value =
      handle (Space.read p g.bus addr 4)
        (λ read_bytes.
          let read_value = from_le_bytes read_bytes in
          let write_value = do_arith_u32 op read_value value in
          handle (Space.write p g.bus addr (to_le_bytes 4 write_value))
            (λ bus. ok (done read_value, record g { bus = bus })) (λ e. ok (failed e, g)))
        (λ e. ok (failed e, g))
