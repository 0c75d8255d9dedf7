-- ===== src/Difftest/Subcommand/Laws.antt =====
-- The whole comparison of two logs.
use pokedex.Prelude.{
  ℕ, suc, ◌≡◌, ◌≢◌, Option, some, none, List, Outcome, ok, >>=-eq-ok, length, arith,
}
use pokedex.Common.{PokedexLog}
use pokedex.Difftest.Replay.{new}
use pokedex.Difftest.Replay.Frame.{new-IsShaped}
use pokedex.Difftest.Replay.Compare.{Agree-refl}
use pokedex.Difftest.Backend.{Failure}
use pokedex.Difftest.PokedexLog
use pokedex.Difftest.PokedexLog.{PokedexLogBackend}
use pokedex.Difftest.PokedexLog.Laws.{pokedex_backend-IsLawful}
use pokedex.Difftest.SpikeLog
use pokedex.Difftest.SpikeLog.{Commit, SpikeLogBackend}
use pokedex.Difftest.SpikeLog.Laws.{remaining, spike_backend-IsLawful, remaining-from_logs}
use pokedex.Difftest.Run.{success_source2, DiffReport, run_diff}
use pokedex.Difftest.Run.Verdict.{Verdict, run_diff-Verdict}
use pokedex.Difftest.Run.Total.{run_diff_total}
use pokedex.Difftest.Subcommand.{run_subcommand}

module _ (spike_logs : List Commit) (pokedex_logs : List PokedexLog) where
  abbrev spike_log : SpikeLogBackend
  spike_log = SpikeLog.from_logs spike_logs

  abbrev pokedex_log : PokedexLogBackend
  pokedex_log = PokedexLog.from_logs pokedex_logs

  abbrev compare_from : ℕ → Outcome Failure (Option DiffReport)
  compare_from pc =
      run_diff SpikeLog.spike_backend PokedexLog.pokedex_backend success_source2
        (suc (length spike_logs)) spike_log pokedex_log pc

  -- The comparison of two parsed logs, with one round more than the Spike log has commits, does
  -- not run out of rounds: it gives a report, an error or a panic.
  pub run_subcommand_total : run_subcommand spike_logs pokedex_logs ≢ ok none
  unfolding run_subcommand SpikeLog.from_logs
  run_subcommand_total h =
      let (pc, found, rest) = >>=-eq-ok (PokedexLog.get_reset_pc pokedex_log) compare_from h in
      run_diff_total SpikeLog.spike_backend PokedexLog.pokedex_backend remaining
        spike_backend-IsLawful success_source2 (suc (length spike_logs)) spike_log pokedex_log pc
        (omega (arith, remaining-from_logs spike_logs)) rest

  -- If `run_subcommand` returns a report, then the pokedex log starts with a reset to a program
  -- counter to which both sources are reset, and from there the sources step together and agree
  -- after each pair of steps, up to a pair of steps after which the states differ (and the report
  -- says so and holds their notes) or a pair of steps where a side has exited (and the report
  -- holds both exit codes and the policy's answer).
  pub run_subcommand-Verdict :
      {report : DiffReport}
      → run_subcommand spike_logs pokedex_logs ≡ ok (some report)
      → (pc : ℕ) × (s1 : SpikeLogBackend) × (s2 : PokedexLogBackend) × (PokedexLog.get_reset_pc
            pokedex_log
          ≡ ok pc)
        × (SpikeLog.diff_reset spike_log pc ≡ ok s1)
        × (PokedexLog.diff_reset pokedex_log pc ≡ ok s2)
        × Verdict SpikeLog.spike_backend PokedexLog.pokedex_backend success_source2 report s1 s2
  unfolding run_subcommand SpikeLog.from_logs PokedexLog.from_logs
  run_subcommand-Verdict {report} h =
      let (pc, found, rest) = >>=-eq-ok (PokedexLog.get_reset_pc pokedex_log) compare_from h in
      let (s1, s2, reset1, reset2, verdict) =
        run_diff-Verdict SpikeLog.spike_backend PokedexLog.pokedex_backend spike_backend-IsLawful
          pokedex_backend-IsLawful success_source2 (suc (length spike_logs)) spike_log pokedex_log
          pc new-IsShaped new-IsShaped (Agree-refl new) rest in
      (pc, s1, s2, found, reset1, reset2, verdict)
