-- ===== src/Pokedex/Run.antt =====
-- `AppTracer` and `run_subcommand` of simulator/src/pokedex/mod.rs, from a loaded bus on.
pub mod Agree
pub mod Logs
use pokedex.Prelude.{
  ℕ, zero, suc, Option, none, some, List, [], ◌∷◌, ◌++◌, ◌==◌, if◌then◌else◌, String, Bool, Outcome,
  ok, ◌>>=◌, Profile,
}
use pokedex.Bus.Memory.{BusError}
use pokedex.Bus.Space.{Bus}
use pokedex.Common.{PokedexLog}
use pokedex.Model.{ModelExport, StepDetail}
use pokedex.Pokedex.Simulator.{Simulator, new, reset_core, step_trace, is_exited}
use pokedex.Pokedex.Tracer.{
  trace_reset as json_reset, trace_exit as json_exit, trace_step as json_step,
}
use pokedex.Pokedex.Stdout.{print_reset, print_exit, print_step}

pub data ExitCode : Type 0 where
  success failure : ExitCode

-- if the configuration defines a reset vector, it is used, otherwise the entry point of the ELF
abbrev pub unwrap_or : Option ℕ → ℕ → ℕ
unwrap_or none entry = entry
unwrap_or (some v) entry = v

unfoldable pub exit_code_of : ℕ → ExitCode
exit_code_of code = if code == 0 then success else failure

-- The trait `Tracer`; a method returns the entries that it writes.
pub record Tracer (m : ModelExport) : Type 1 where
  pub Entry : Type 0
  pub trace_reset : ℕ → List Entry
  pub trace_exit : ℕ → List Entry
  pub trace_step : StepDetail m → Outcome BusError (List Entry)

abbrev pub json_file_tracer : (m : ModelExport) → Tracer m
json_file_tracer m = record {
  Entry = PokedexLog;
  trace_reset = json_reset;
  trace_exit = json_exit;
  trace_step = json_step m;
}

abbrev pub stdout_tracer : (m : ModelExport) → Tracer m
stdout_tracer m = record {
  Entry = String;
  trace_reset = print_reset;
  trace_exit = print_exit;
  trace_step = print_step m;
}

abbrev pub noop_tracer : (m : ModelExport) → Tracer m
noop_tracer m = record {
  Entry = Unit;
  trace_reset = λ pc. [];
  trace_exit = λ exit_code. [];
  trace_step = λ detail. ok [];
}

pub data AppTracer : Type 0 where
  json_file stdout no_tracer : AppTracer

-- `as_tracer`
abbrev pub as_tracer : (m : ModelExport) → AppTracer → Tracer m
as_tracer m json_file = json_file_tracer m
as_tracer m stdout = stdout_tracer m
as_tracer m no_tracer = noop_tracer m

-- the choice by the arguments `output_log_path` and `stdout`
unfoldable pub app_tracer {ℓ} : {P : Type ℓ} → Option P → Bool → AppTracer
app_tracer output_log_path to_stdout = elim output_log_path [
  | some _ ↦ json_file
  | none ↦ if to_stdout then stdout else no_tracer
]

module _ (p : Profile) (m : ModelExport) (tracer : Tracer m) where
  open tracer use {Entry, trace_reset, trace_exit, trace_step}

  -- The loop, at most `fuel` rounds of it: the exit code and what was traced. `none` means that the
  -- fuel ran out; a program need not end.
  unfoldable pub loop : ℕ → Simulator p m → List Entry → Outcome BusError (Option (ℕ × List Entry))
  unfolding is_exited step_trace
  loop zero sim log = ok none
  loop (suc fuel) sim log = elim (is_exited p m sim) [
    | some code ↦ ok (some (code, log ++ trace_exit code))
    | none ↦ do
      (detail, sim') ← step_trace p m sim
      entries ← trace_step detail
      loop fuel sim' (log ++ entries)
  ]

  -- `bus` and `elf_entry` are what the configuration and the ELF file gave.
  unfoldable pub run_subcommand :
      ℕ → m.State → Bus → ℕ → Outcome BusError (Option (ExitCode × List Entry))
  unfolding loop new reset_core exit_code_of
  run_subcommand fuel core bus elf_entry = do
    let sim = new p m core bus
    let reset_vector = unwrap_or bus.reset_vector elf_entry
    let sim' = reset_core p m sim reset_vector
    ended ← loop fuel sim' (trace_reset reset_vector)
    ok (elim ended [ none ↦ none | some (code, log) ↦ some (exit_code_of code, log) ])
