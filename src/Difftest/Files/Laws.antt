-- ===== src/Difftest/Files/Laws.antt =====
-- The comparison of two files is that of the logs that they hold.
use pokedex.Prelude.{
  ℕ, suc, ◌+◌, ◌≡◌, ◌≢◌, refl, true, Option, none, some, List, [], ◌∷◌, map, String, All, Outcome,
  ok, err, panic, ◌>>=◌, >>=-eq-ok, length, arith, given,
}
use pokedex.Common.{PokedexLog}
use pokedex.Util.Text.{all_chars, lines}
use pokedex.Util.Text.Join.{is_text, unlines, lines-unlines}
use pokedex.Difftest.Backend.{Failure}
use pokedex.Difftest.PokedexLog
use pokedex.Difftest.SpikeLog
use pokedex.Difftest.SpikeLog.{Commit}
use pokedex.Difftest.SpikeParse
use pokedex.Difftest.SpikeParse.Spelled.{EachSpells, backend_from_log-Spells}
use pokedex.Difftest.Run.{success_source2, DiffReport, run_diff}
use pokedex.Difftest.Subcommand.{run_subcommand}
use pokedex.Difftest.SpikeLog.Laws.{remaining, spike_backend-IsLawful}
use pokedex.Difftest.Run.Total.{run_diff_total}
use pokedex.Difftest.Files.{
  Problem, bad_spike_log, bad_pokedex_log, failed, or_problem, logs_from, backend_from_log,
  run_files,
}

or_problem-ok :
    {E A : Type 0} (f : E → Problem) (m : Outcome E A) {a : A} → or_problem f m ≡ ok a → m ≡ ok a
unfolding or_problem
or_problem-ok f (ok a) h = cc
or_problem-ok f (err e) h = cc
or_problem-ok f panic h = cc

module _ (from_str : String → Option PokedexLog) (to_writer : PokedexLog → String) where
  -- The JSON of a log entry is one line of text, from which the entry is read back.
  abbrev pub IsJson : PokedexLog → Type 0
  IsJson log = (all_chars is_text (to_writer log) ≡ true) × (from_str (to_writer log) ≡ some log)

  logs_from-map :
      (line_number : ℕ) (logs : List PokedexLog)
      → All IsJson logs
      → logs_from from_str line_number (map to_writer logs) ≡ ok logs
  unfolding logs_from
  logs_from-map line_number [] h = refl
  logs_from-map line_number (log ∷ logs) ((_, read), hs) =
      rw read (rw (logs_from-map (line_number + 1) logs hs) refl)

  texts :
      (logs : List PokedexLog)
      → All IsJson logs
      → All (λ l. all_chars is_text l ≡ true) (map to_writer logs)
  texts [] h = tt
  texts (log ∷ logs) ((text, _), hs) = (text, texts logs hs)

  backend_from_log-unlines :
      (logs : List PokedexLog)
      → All IsJson logs
      → backend_from_log from_str (unlines (map to_writer logs)) ≡ ok (PokedexLog.from_logs logs)
  unfolding backend_from_log
  backend_from_log-unlines logs h =
      rw (lines-unlines (map to_writer logs) (texts logs h)) (rw (logs_from-map 0 logs h) refl)

  or_problem_bind :
      {A B : Type 0} (m : Outcome Failure A) (f : A → Outcome Failure B)
      → or_problem failed (m >>= f) ≡ (or_problem failed m >>= (λ a. or_problem failed (f a)))
  unfolding or_problem
  or_problem_bind (ok a) f = refl
  or_problem_bind (err e) f = refl
  or_problem_bind panic f = refl

  -- the rest of `run_subcommand`, from the program counter on
  abbrev compared : List Commit → List PokedexLog → ℕ → Outcome Failure (Option DiffReport)
  compared commits logs pc =
      run_diff SpikeLog.spike_backend PokedexLog.pokedex_backend success_source2
        (suc (length commits)) (SpikeLog.from_logs commits) (PokedexLog.from_logs logs) pc

  -- The comparison of two files, the one with a line for each of the commits whose words are the
  -- texts of well-formed tokens that the grammar takes as that commit, and the other with the JSON
  -- lines of log entries, each of one line and read back by the parser, is the comparison of these
  -- commits with these entries.
  pub run_files-Spells :
      (spike_text : String) (commits : List Commit) (logs : List PokedexLog)
      → EachSpells (lines spike_text) commits
      → All IsJson logs
      → run_files from_str spike_text (unlines (map to_writer logs))
        ≡ or_problem failed (run_subcommand commits logs)
  unfolding run_files run_subcommand SpikeLog.from_logs
  run_files-Spells spike_text commits logs spelled json =
      rw (backend_from_log-Spells spike_text commits spelled) (
        rw (backend_from_log-unlines logs json) (
          rw
            (or_problem_bind (PokedexLog.get_reset_pc (PokedexLog.from_logs logs))
              (compared commits logs))
            refl))

-- The comparison of any two texts, with one round more than the Spike log has commits, does not run
-- out of rounds: it gives a report, an error or a panic.
pub run_files_total :
    (from_str : String → Option PokedexLog) (spike_text pokedex_text : String)
    → run_files from_str spike_text pokedex_text ≢ ok none
unfolding run_files
run_files_total from_str spike_text pokedex_text h =
    given (>>=-eq-ok (or_problem bad_spike_log (SpikeParse.backend_from_log spike_text)) _ h)
      λ (spike_log, _, h1).
        given (>>=-eq-ok (or_problem bad_pokedex_log (backend_from_log from_str pokedex_text)) _ h1)
          λ (pokedex_log, _, h2).
            given (>>=-eq-ok (or_problem failed (PokedexLog.get_reset_pc pokedex_log)) _ h2)
              λ (pc, _, h3).
                run_diff_total SpikeLog.spike_backend PokedexLog.pokedex_backend remaining
                  spike_backend-IsLawful success_source2 (suc (length spike_log.logs)) spike_log
                  pokedex_log pc (omega arith) (or_problem-ok failed _ h3)
