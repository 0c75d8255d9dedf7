-- ===== src/Difftest/Files.antt =====
-- The comparison of two log files: `backend_from_log` of simulator/src/difftest/pokedex.rs and
-- `run_subcommand` of simulator/src/difftest/mod.rs, on the texts of the files. The JSON parser is a
-- package, a parameter here.
pub mod Laws
use pokedex.Prelude.{
  ℕ, suc, ◌+◌, Option, none, some, List, [], ◌∷◌, String, Outcome, ok, err, panic, ◌>>=◌, length,
}
use pokedex.Common.{PokedexLog}
use pokedex.Util.Text.{lines}
use pokedex.Difftest.Backend.{Failure}
use pokedex.Difftest.PokedexLog
use pokedex.Difftest.PokedexLog.{PokedexLogBackend}
use pokedex.Difftest.SpikeLog
use pokedex.Difftest.SpikeParse
use pokedex.Difftest.SpikeParse.{LogError}
use pokedex.Difftest.Run.{success_source2, DiffReport, run_diff}

-- What the whole comparison reports: an error in one of the files, or of the comparison.
pub data Problem : Type 0 where
  bad_spike_log : LogError → Problem
  bad_pokedex_log : ℕ → Problem
  failed : Failure → Problem

pub or_problem : {E A : Type 0} → (E → Problem) → Outcome E A → Outcome Problem A
or_problem f (ok a) = ok a
or_problem f (err e) = err (f e)
or_problem f panic = panic

module _ (from_str : String → Option PokedexLog) where
  -- The loop over the lines, from a line number on.
  unfoldable pub logs_from : ℕ → List String → Outcome ℕ (List PokedexLog)
  logs_from line_number [] = ok []
  logs_from line_number (line_str ∷ rest) = elim (from_str line_str) [
    | none ↦ err line_number
    | some log ↦ do logs ← logs_from (line_number + 1) rest; ok (log ∷ logs)
  ]

  unfoldable pub backend_from_log : String → Outcome ℕ PokedexLogBackend
  unfolding logs_from lines
  backend_from_log raw_str = do logs ← logs_from 0 (lines raw_str); ok (PokedexLog.from_logs logs)

  -- A round of the loop consumes a Spike commit, so one round more than there are is enough.
  unfoldable pub run_files : String → String → Outcome Problem (Option DiffReport)
  unfolding backend_from_log or_problem
  run_files spike_text pokedex_text = do
    spike_log ← or_problem bad_spike_log (SpikeParse.backend_from_log spike_text)
    pokedex_log ← or_problem bad_pokedex_log (backend_from_log pokedex_text)
    pc ← or_problem failed (PokedexLog.get_reset_pc pokedex_log)
    or_problem failed (
        run_diff SpikeLog.spike_backend PokedexLog.pokedex_backend success_source2
          (suc (length spike_log.logs)) spike_log pokedex_log pc)
