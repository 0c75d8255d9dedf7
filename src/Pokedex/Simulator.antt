-- ===== src/Pokedex/Simulator.antt =====
-- `Simulator` of simulator/src/pokedex/simulator.rs, and the table of callbacks of
-- simulator/src/model/ffi.rs through which the core reaches its memory.
pub mod Counts
use pokedex.Prelude.{ℕ, Option, none, some, Outcome, ok, panic, ◌>>=◌, Profile}
use pokedex.Bus.Memory.{BusError}
use pokedex.Bus.Space.{Bus, try_get_exit_code}
use pokedex.Model.{
  ModelExport, Program, return, call, Request, inst_fetch_2, read_mem_1, read_mem_2, read_mem_4,
  write_mem_1, write_mem_2, write_mem_4, amo_mem_4, lr_mem_4, sc_mem_4, Reply, StepDetail,
  detail_of_step,
}
use pokedex.Model.Decode.{StepCode, code_from_raw, amo_op_from_raw}
use pokedex.Pokedex.Callbacks
use pokedex.Pokedex.Callbacks.{
  Global, Statistic, no_statistic, BusResult, done, failed, increment_u64,
}

-- `try_write`
unfoldable pub try_write : BusResult ℕ → Reply
try_write (done value) = (0, some value)
try_write (failed e) = (1, none)

-- `to_c_int`
unfoldable pub to_c_int : BusResult (Unit {0}) → Reply
to_c_int (done _) = (0, none)
to_c_int (failed e) = (1, none)

module _ (p : Profile) where
  -- the functions of `MakeVTable`
  unfoldable pub answer : Request → Global → Outcome BusError (Reply × Global)
  unfolding try_write to_c_int amo_op_from_raw
  answer (inst_fetch_2 addr) g = do (r, g') ← Callbacks.inst_fetch_2 p g addr; ok (try_write r, g')
  answer (read_mem_1 addr) g = do (r, g') ← Callbacks.read_mem_u8 p g addr; ok (try_write r, g')
  answer (read_mem_2 addr) g = do (r, g') ← Callbacks.read_mem_u16 p g addr; ok (try_write r, g')
  answer (read_mem_4 addr) g = do (r, g') ← Callbacks.read_mem_u32 p g addr; ok (try_write r, g')
  answer (write_mem_1 addr value) g = do
    (r, g') ← Callbacks.write_mem_u8 p g addr value
    ok (to_c_int r, g')
  answer (write_mem_2 addr value) g = do
    (r, g') ← Callbacks.write_mem_u16 p g addr value
    ok (to_c_int r, g')
  answer (write_mem_4 addr value) g = do
    (r, g') ← Callbacks.write_mem_u32 p g addr value
    ok (to_c_int r, g')
  answer (amo_mem_4 addr amo_op value) g = do
    op ← amo_op_from_raw amo_op
    (r, g') ← Callbacks.amo_mem_u32 p g addr op value
    ok (try_write r, g')
  answer (lr_mem_4 addr) g = panic
  answer (sc_mem_4 addr value) g = panic

  -- A step of the core with its calls answered in turn.
  unfoldable pub run_program : {S : Type 0} → Program S → Global → Outcome BusError (ℕ × S × Global)
  unfolding answer
  run_program (return code core) g = ok (code, core, g)
  run_program (call request k) g = do (reply, g') ← answer request g; run_program (k reply) g'

  -- the book keeping before a step
  abbrev pub counted : Global → Outcome BusError Global
  counted g = do
    count ← increment_u64 p g.stats.step_count
    ok (record g { stats = record g.stats { step_count = count } })

  module _ (m : ModelExport) where
    pub record Simulator : Type 0 where
      pub core : m.State
      pub global : Global

    -- `Simulator::new`, with the created core
    unfoldable pub new : m.State → Bus → Simulator
    new core bus = record { core = core; global = record { bus = bus; stats = no_statistic } }

    unfoldable pub reset_core : Simulator → ℕ → Simulator
    reset_core sim pc = record sim { core = m.reset sim.core pc }

    unfoldable pub step : Simulator → Outcome BusError (StepCode × Simulator)
    unfolding run_program code_from_raw
    step sim = do
      g ← counted sim.global
      (code, core', g') ← run_program (m.step sim.core) g
      code' ← code_from_raw code
      ok (code', record { core = core'; global = g' })

    unfoldable pub step_trace : Simulator → Outcome BusError (StepDetail m × Simulator)
    unfolding run_program detail_of_step
    step_trace sim = do
      g ← counted sim.global
      (code, core', g') ← run_program (m.step sim.core) g
      detail ← detail_of_step m code core'
      ok (detail, record { core = core'; global = g' })

    unfoldable pub is_exited : Simulator → Option ℕ
    unfolding try_get_exit_code
    is_exited sim = try_get_exit_code sim.global.bus
