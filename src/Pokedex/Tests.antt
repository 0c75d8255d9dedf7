-- ===== src/Pokedex/Tests.antt =====
-- Runs of small cores.
use pokedex.Prelude.{
  ℕ, ◌+◌, ◌≡◌, refl, true, false, none, some, List, [], ◌∷◌, ◌++◌, all, arith, ok, debug, replicate,
}
use pokedex.Prelude.{get_or, if◌then◌else◌}
use pokedex.Common.{CommitLog}
use pokedex.Util.Bits.{bit}
use pokedex.Bus.Memory.{BusError}
use pokedex.Model.{read_xreg, read_freg}
use pokedex.Difftest.Replay.{CpuState, new, no_diff, write_gpr}
use pokedex.Difftest.Replay.Frame.{new-IsShaped}
use pokedex.Difftest.PokedexLog.{update_state}
use pokedex.Pokedex.Tracer.{trace_reset, trace_exit, trace_step}
use pokedex.Pokedex.Stdout.{print_step, inst_text, xreg_text}
use pokedex.Util.Text.{concat}
use pokedex.Util.Text.Print.{hex, decimal, digit_char, width_of}
use pokedex.Pokedex.Tracer.RoundTrip.{update_state-trace_step}
use pokedex.Common.{StateWrite, PokedexLog}
use pokedex.Model
use pokedex.Util.Bitmap
use pokedex.Bus.Atomic.{AtomicOp, do_arith_u32}
use pokedex.Bus.Memory
use pokedex.Bus.Mmio
use pokedex.Bus.Mmio.{MmioAddrDecoder, exit}
use pokedex.Bus.Space
use pokedex.Bus.Space.{Bus, Range, memory, mmio, try_get_exit_code}
use pokedex.Difftest.PokedexLog.{from_logs, get_reset_pc, diff_reset}
use pokedex.Model.{
  ModelExport, TraceBuffer, Program, return, call, write_mem_4, inst_fetch_2, StepDetail,
}
use pokedex.Model.Decode.{nc, StepCode}
use pokedex.Pokedex.Callbacks
use pokedex.Pokedex.Callbacks.{Global, BusResult, done, read_mem_u32, amo_mem_u32, no_statistic}
use pokedex.Pokedex.Callbacks.Laws.{read_mem_u32-amo_mem_u32}
use pokedex.Pokedex.Simulator.{Simulator, step_trace}
use pokedex.Pokedex.Simulator.Counts.{step_trace-counts}
use pokedex.Pokedex.Tracer.{name_of_csr}
use pokedex.Pokedex.Tracer.Names.{name_of_csr_injective}
use pokedex.Pokedex.Run.{
  failure, exit_code_of, unwrap_or, json_file_tracer, stdout_tracer, run_subcommand,
}
use pokedex.Pokedex.Run.Agree.{Alike, SameExit, run_subcommand-SameExit}
use pokedex.Pokedex.Run.Logs.{is_commit, run_subcommand-log, run_subcommand-get_reset_pc}

abbrev buffer : ℕ → TraceBuffer
buffer pc = record {
  step_status = 4;
  pc = pc;
  inst = 0x13;
  xreg_mask = 32;
  freg_mask = 0;
  vreg_mask = 0;
  csr_count = 0;
  csr_indices = replicate 16 0;
}

-- A core whose only instruction stores 7 to the exit register.
abbrev storing : ModelExport
storing = record {
  State = ℕ;
  get_pc = λ s. s;
  get_xreg = λ s i. i;
  get_freg = λ s i. 0;
  get_csr = λ s i. 0;
  get_vreg = λ s i n. replicate n 0;
  reset = λ s pc. pc;
  step = λ s. call (inst_fetch_2 0x2000) (λ r. call (write_mem_4 0x1004 7) (λ r. return 4 s));
  get_trace_buffer = buffer;
}

abbrev ram : Range
ram = record { start = 0x2000; end = 0x2008 }

abbrev bus : Bus
bus = record {
  address_space =
      (ram, memory (record { memory = replicate 8 0 }))
      ∷ (
        record { start = 0x1000; end = 0x1010 },
        mmio (record { regs = (4, exit (record { cell = 0 })) ∷ [] }),
      )
      ∷ [];
  exit_state = 0;
  reset_vector = none;
  cells = 0 ∷ [];
}

abbrev log : List PokedexLog
log =
    PokedexLog.reset 0x2000
    ∷ PokedexLog.commit (record {
      pc = 0x2000;
      is_compressed = false;
      instruction = 0x13;
      states_changed = StateWrite.xrf 5 5 ∷ [];
    })
    ∷ PokedexLog.exit 7
    ∷ []

ran :
    run_subcommand debug storing (json_file_tracer storing) 2 0 bus 0x2000
    ≡ ok (some (failure, log))
unfolding run_subcommand Callbacks.inst_fetch_2 Space.read Space.find Memory.do_bus_read
    Callbacks.write_mem_u32 Space.write Space.replace Mmio.do_bus_write Mmio.search_key Mmio.narrow
    Mmio.store Model.csr_change_indices Model.xreg_changes Model.freg_changes
    Model.vreg_change_indices Bitmap.indices trace_step trace_reset trace_exit
ran = refl

run_subcommand-log_example :
    (code : ℕ) × (commits : List PokedexLog) × (all is_commit commits ≡ true)
    × (log
        ≡ PokedexLog.reset (unwrap_or bus.reset_vector 0x2000)
          ∷ (commits ++ PokedexLog.exit code ∷ []))
    × (failure ≡ exit_code_of code)
run_subcommand-log_example = run_subcommand-log storing debug 2 0 bus 0x2000 ran

run_subcommand-SameExit_example :
    Alike SameExit
      (run_subcommand debug storing (json_file_tracer storing) 2 0 bus 0x2000)
      (run_subcommand debug storing (stdout_tracer storing) 2 0 bus 0x2000)
run_subcommand-SameExit_example = run_subcommand-SameExit storing debug 2 0 bus 0x2000

run_subcommand-get_reset_pc_example :
    (get_reset_pc (from_logs log) ≡ ok (unwrap_or bus.reset_vector 0x2000))
    × (diff_reset (from_logs log) (unwrap_or bus.reset_vector 0x2000)
        ≡ ok (record (from_logs log) { index = 1 }))
run_subcommand-get_reset_pc_example = run_subcommand-get_reset_pc storing debug 2 0 bus 0x2000 ran

abbrev global : Global
global = record { bus = bus; stats = no_statistic }

abbrev at_five : Global
at_five = record {
  bus = record bus {
    address_space =
        (ram, memory (record { memory = 0 ∷ 0 ∷ 0 ∷ 0 ∷ 5 ∷ 0 ∷ 0 ∷ 0 ∷ [] }))
        ∷ (
          record { start = 0x1000; end = 0x1010 },
          mmio (record { regs = (4, exit (record { cell = 0 })) ∷ [] }),
        )
        ∷ [];
  };
  stats = no_statistic;
}

abbrev ram_memory : Memory.NaiveMemory
ram_memory = record { memory = replicate 8 0 }

found : Space.find global.bus.address_space 0x2004 ≡ some (ram, memory ram_memory)
unfolding Space.find
found = refl

added : amo_mem_u32 debug global 0x2004 AtomicOp.add 5 ≡ ok (done 0, at_five)
unfolding amo_mem_u32 Space.read Space.write Space.find Space.replace Memory.do_bus_read
    Memory.do_bus_write
added = refl

read_mem_u32-amo_mem_u32_example :
    (read_mem_u32 debug global 0x2004 ≡ ok (done 0, global))
    × (read_mem_u32 debug at_five 0x2004 ≡ ok (done (do_arith_u32 AtomicOp.add 0 5), at_five))
read_mem_u32-amo_mem_u32_example =
    read_mem_u32-amo_mem_u32 debug global 0x2004 found
      (record { size = omega arith; offset_lt = omega arith; len_lt = omega arith }) refl
      AtomicOp.add 5 0 (omega arith) (omega arith) added

name_of_csr_injective_example : ◌≡◌ {A = ℕ} 0x300 0x300
unfolding name_of_csr
name_of_csr_injective_example = name_of_csr_injective 0x300 0x300 {s = "mstatus"} refl refl

abbrev simulator : Simulator debug storing
simulator = record { core = 0; global = global }

abbrev detail : StepDetail storing
detail = record {
  code = StepCode.committed;
  pc = 0;
  inst = some (nc 0x13);
  changes = record { core = 0; tb = buffer 0 };
}

abbrev stepped : Simulator debug storing
stepped = record {
  core = 0;
  global = record {
    bus = record bus { cells = 0x100000007 ∷ [] };
    stats = record { fetch_count = 1; step_count = 1 };
  };
}

steps : step_trace debug storing simulator ≡ ok (detail, stepped)
unfolding step_trace Callbacks.inst_fetch_2 Space.read Space.find Memory.do_bus_read
    Callbacks.write_mem_u32 Space.write Space.replace Mmio.do_bus_write Mmio.search_key Mmio.narrow
    Mmio.store
steps = refl

step_trace-counts_example :
    (stepped.global.stats.step_count ≡ simulator.global.stats.step_count + 1)
    × (stepped.global.bus.exit_state ≡ simulator.global.bus.exit_state)
    × (stepped.global.bus.reset_vector ≡ simulator.global.bus.reset_vector)
step_trace-counts_example = step_trace-counts debug storing simulator steps (omega arith)

abbrev committed : CommitLog
committed = record {
  pc = 0;
  is_compressed = false;
  instruction = 0x13;
  states_changed = StateWrite.xrf 5 5 ∷ [];
}

logged : trace_step storing {E = BusError} detail ≡ ok (PokedexLog.commit committed ∷ [])
unfolding trace_step Model.csr_change_indices Model.xreg_changes Model.freg_changes
    Model.vreg_change_indices Bitmap.indices
logged = refl

abbrev replayed : CpuState
replayed = record new { gpr = 0 ∷ 0 ∷ 0 ∷ 0 ∷ 0 ∷ 5 ∷ replicate 26 0 }

replays :
    update_state new committed
    ≡ ok (replayed, record no_diff { gpr_write_mask = record { word = 32 } })
unfolding update_state write_gpr new Bitmap.set
replays = refl

update_state-trace_step_example :
    (replayed.pc ≡ detail.pc)
    × (get_or replayed.gpr 5 0 ≡ (if bit 5 32 then read_xreg storing 0 5 else get_or new.gpr 5 0))
    × (get_or replayed.fpr 5 0 ≡ (if bit 5 0 then read_freg storing 0 5 else get_or new.fpr 5 0))
update_state-trace_step_example =
    update_state-trace_step storing detail new 5 logged (omega arith) (omega arith) new-IsShaped
      replays (omega arith)

printed :
    print_step storing {E = BusError} detail
    ≡ ok ("[INST]  pc=0x00000000 inst=0x00000013 x5<-0x00000005" ∷ [])
unfolding print_step inst_text xreg_text concat hex decimal Model.csr_change_indices digit_char
    Model.xreg_changes Bitmap.indices width_of Model.freg_changes Model.vreg_change_indices
printed = refl
