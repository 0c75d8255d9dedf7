-- ===== src/Difftest/Subcommand.antt =====
-- `run_subcommand` of simulator/src/difftest/mod.rs, from the two parsed logs to the report.
pub mod Laws
use pokedex.Prelude.{ℕ, suc, Option, List, Outcome, ◌>>=◌, length}
use pokedex.Common.{PokedexLog}
use pokedex.Difftest.Backend.{Failure}
use pokedex.Difftest.PokedexLog
use pokedex.Difftest.SpikeLog
use pokedex.Difftest.SpikeLog.{Commit}
use pokedex.Difftest.Run.{SamePolicy, success_source2, DiffReport, run_diff}

-- A round of the loop consumes a Spike commit, so one round more than there are is enough.
unfoldable pub run_subcommand : List Commit → List PokedexLog → Outcome Failure (Option DiffReport)
run_subcommand spike_logs pokedex_logs = do
  let spike_log = SpikeLog.from_logs spike_logs
  let pokedex_log = PokedexLog.from_logs pokedex_logs
  pc ← PokedexLog.get_reset_pc pokedex_log
  run_diff SpikeLog.spike_backend PokedexLog.pokedex_backend success_source2
      (suc (length spike_logs)) spike_log pokedex_log pc
