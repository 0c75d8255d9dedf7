-- ===== src/Lib.antt =====
-- Verification of the pokedex simulator, a RISC-V simulator whose core is a shared library built
-- from an ASL model. The Rust code of simulator/src is modelled here.
--
-- The program's parts. A run (pokedex/mod.rs) builds a bus from a configuration (bus/loader.rs),
-- loads an ELF file through it (bus/elf.rs), and steps the core (model/mod.rs), which calls back
-- into the bus (pokedex/simulator.rs) until a store to the `exit` register is seen. It writes a log
-- of commits (common.rs). The difftest (difftest) replays that log and a log of Spike and
-- compares the two states after each instruction.
--
-- Prelude: lists over the native naturals, `Outcome` for calls that return an error or panic, the
-- conversions between words and bytes. A `u32` is a natural whose wrap-around is written out. Where
-- Rust checks overflow only in debug builds, a definition takes the build `Profile`.
-- Util: util.rs. `Bitmap32` is a word; `indices` runs its iterator for 32 rounds, one for each bit.
-- Common: common.rs, the trace log.
-- Bus.Atomic, Bus.Memory, Bus.Mmio, Bus.Space: bus/mod.rs, its atomic operations, memory, register
-- decoder and address space. The `AtomicU64` that a register and the bus share is an index into a
-- heap of cells. The rounds of the binary search are the number of registers, and each takes one
-- slot at least.
-- Bus.Loader: bus/loader.rs from the parsed configuration on. Bus.Elf: bus/elf.rs with the parser of
-- ELF files as a parameter.
-- Model: model/mod.rs and the decoding of model/ffi.rs. Model.Desc: the description of the core and
-- the creation of its handle. The core is a record of functions, and its step a finite program of
-- calls, each answered before it goes on.
-- Pokedex.Callbacks, Pokedex.Simulator: pokedex/simulator.rs and the callback table of
-- model/ffi.rs. Pokedex.Tracer, Pokedex.Stdout, Pokedex.Run: pokedex/mod.rs, the log as a list of
-- its entries and the printed output as a list of lines. A program that runs need not end, so the
-- loop has fuel, and `none` means that it ran out.
-- Gdb: gdb, the target that the debugger's protocol drives. `poll` has fuel, as the program that it
-- steps need not stop. Gdb.Breakpoints has the wrapper that run_subcommand hands over, and Gdb.Xml
-- the target description, the text that the writers of gdb/arch.rs write.
-- Difftest.Csr, Difftest.Replay, Difftest.Notes: difftest/replay.rs, the state that a log replays
-- into, the record of the registers that a step wrote, the comparison, and the notes on a
-- difference, each line a value with the numbers that it shows. Difftest.Dump: the printed state.
-- Difftest.Backend: the trait `DiffBackend` of difftest/mod.rs as a record, with the laws that the
-- comparison needs. Difftest.PokedexLog (difftest/pokedex.rs) and Difftest.SpikeLog
-- (difftest/spike.rs) meet them.
-- Difftest.SpikeText, Difftest.SpikeParse: the tokenizer and the parser of difftest/spike.rs, on the
-- text of the log; Util.Text has the functions on texts that they call. The parser's loop has fuel,
-- one round more than the line has tokens. SpikeParse.Grammar says without the parser which tokens
-- spell which commit, and SpikeParse.Spelled which lines hold such tokens, with any blanks between
-- them and numbers of any width, as Spike lays its log out. SpikeParse.Printer prints a commit in a
-- form of its own.
-- Difftest.Run, Difftest.Subcommand, Difftest.Files: `run_diff` and `run_subcommand` of
-- difftest/mod.rs, on parsed logs and on the texts of the files, with the JSON parser as a
-- parameter. The loop has fuel, one round more than the Spike log has commits; a result of `none` is
-- fuel run out.
--
-- Not modelled: reading and writing files, the JSON and KDL parsers, the command line and logging
-- (main.rs), the text of error messages, `dlopen` and `dlsym` (model/ffi.rs, what they give is a
-- parameter), the choice of the library (model/mod.rs), the debugger's protocol and its socket, and
-- the ASL model, which is not Rust.
mod Prelude
pub mod Util
pub mod Common
pub mod Bus
pub mod Model
pub mod Pokedex
pub mod Gdb
pub mod Difftest
