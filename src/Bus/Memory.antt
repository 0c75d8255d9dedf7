-- ===== src/Bus/Memory.antt =====
-- `BusError` and `NaiveMemory` of simulator/src/bus/mod.rs. A read takes the length of the
-- destination and returns the bytes that it copies there.
pub mod Laws
use pokedex.Prelude.{
  ℕ, ◌+◌, ◌-◌, min, Bool, List, [], String, ltb, leb, if◌then◌else◌, Outcome, ok, err, panic, ◌>>=◌,
  Profile, add_u32, as_u32, length, take, drop, replicate, splice,
}

pub data BusError : Type 0 where
  device_error : String → BusError
  decode_error : BusError

pub record NaiveMemory : Type 0 where
  pub memory : List ℕ

-- `NaiveMemory::new`
unfoldable pub zeroed : ℕ → NaiveMemory
zeroed size = record { memory = replicate size 0 }

-- `offset >= length || offset + len as u32 > length`, in the order of the source: the sum is taken
-- only where the first test fails.
abbrev pub out_of_range : Profile → ℕ → ℕ → ℕ → Outcome BusError Bool
out_of_range p length offset len =
    if leb length offset
    then ok Bool.true
    else do end ← add_u32 p offset (as_u32 len); ok (ltb length end)

-- `&bytes[offset..offset + len]`
abbrev pub slice : List ℕ → ℕ → ℕ → Outcome BusError (List ℕ)
slice bytes offset len =
    if ltb (length bytes) (offset + len) then panic else ok (take len (drop offset bytes))

unfoldable pub do_bus_read : Profile → NaiveMemory → ℕ → ℕ → Outcome BusError (List ℕ)
do_bus_read p m offset len = do
  bad ← out_of_range p (as_u32 (length m.memory)) offset len
  if bad then err (device_error "NaiveMemoryRead") else slice m.memory offset len

unfoldable pub do_bus_write : Profile → NaiveMemory → ℕ → List ℕ → Outcome BusError NaiveMemory
do_bus_write p m offset bytes = do
  bad ← out_of_range p (as_u32 (length m.memory)) offset (length bytes)
  if bad then err (device_error "NaiveMemoryWrite") else do
    old ← slice m.memory offset (length bytes)
    ok (record { memory = splice offset bytes m.memory })

-- The bytes that are copied to the front of the destination; the method returns their number.
unfoldable pub do_debugger_read : NaiveMemory → ℕ → ℕ → List ℕ
do_debugger_read m offset len =
    if leb (length m.memory) offset
    then []
    else let rest = drop offset m.memory in take (min (length rest) len) rest
