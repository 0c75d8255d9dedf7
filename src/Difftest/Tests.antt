-- ===== src/Difftest/Tests.antt =====
-- Runs of the comparison of simulator/src/difftest on small logs.
use pokedex.Prelude.{
  ℕ, ◌-◌, ◌≡◌, ◌≢◌, ◌↔◌, refl, true, false, if◌then◌else◌, List, [], ◌∷◌, some, none, ok, str_eq,
  String, Option, map, u32_mod, replicate,
}
use pokedex.Common.{StateWrite, PokedexLog}
use pokedex.Util.Bitmap
use pokedex.Difftest.Csr.{csr_eq}
use pokedex.Difftest.Replay.{CpuState, DiffRecord, no_diff, new, write_gpr, compare, combine}
use pokedex.Difftest.Replay.Frame.{new-IsShaped, Replayed, Replayed-pc, write_gpr-Replayed}
use pokedex.Difftest.Replay.Compare.{Agree, Agree-refl, compare_iff}
use pokedex.Difftest.Notes.{pc_same, pretty_print_diff}
use pokedex.Difftest.Notes.Laws.{pretty_print_diff_iff}
use pokedex.Difftest.PokedexLog
use pokedex.Difftest.PokedexLog.{PokedexLogBackend, pokedex_backend}
use pokedex.Difftest.PokedexLog.Laws.{pokedex_backend-IsLawful}
use pokedex.Difftest.SpikeLog
use pokedex.Difftest.SpikeLog.{
  Commit, SpikeLogBackend, write_xreg, spike_backend, max_skip, from_logs, diff_reset,
}
use pokedex.Difftest.SpikeLog.Reset.{Skips, diff_reset-Skips}
use pokedex.Difftest.SpikeLog.Laws.{spike_backend-IsLawful}
use pokedex.Difftest.Run.{DiffReport, is_same, run_diff, success_source2}
use pokedex.Difftest.Run.Verdict.{Verdict, run_diff-Verdict}
use pokedex.Difftest.Subcommand.{run_subcommand}
use pokedex.Difftest.Subcommand.Laws.{run_subcommand-Verdict}
use pokedex.Difftest.SpikeParse.Tests.{example_log, csr_step, load_step, example_log-EachSpells}
use pokedex.Util.Text.Join.{unlines}
use pokedex.Difftest.Files.{failed, or_problem, run_files}
use pokedex.Difftest.Files.Laws.{run_files-Spells, run_files_total}

abbrev spike_commit : Commit
spike_commit = record {
  core_id = 0;
  privilege = 3;
  pc = 0x1000;
  instruction = 0x00100293;
  state_changes = write_xreg 5 1 ∷ [];
}

abbrev boot_commit : Commit
boot_commit = record spike_commit { pc = 0x100 }

abbrev spike_lines : List Commit
spike_lines = boot_commit ∷ spike_commit ∷ []

abbrev pokedex_lines : List PokedexLog
pokedex_lines =
    PokedexLog.reset 0x1000
    ∷ PokedexLog.commit (record {
      pc = 0x1000;
      is_compressed = false;
      instruction = 0x00100293;
      states_changed = StateWrite.xrf 5 1 ∷ [];
    })
    ∷ PokedexLog.exit 0
    ∷ []

abbrev report : DiffReport
report = record {
  is_same = true;
  source1 = "spike-log";
  source2 = "pokedex-log";
  exit1 = some (u32_mod - 1);
  exit2 = some 0;
  diff_notes = [];
  state1 = none;
  state2 = none;
}

lines_report : run_subcommand spike_lines pokedex_lines ≡ ok (some report)
unfolding run_subcommand PokedexLog.get_reset_pc PokedexLog.from_logs run_diff diff_reset
    SpikeLog.skip_to from_logs PokedexLog.diff_reset SpikeLog.diff_step SpikeLog.update_cpu_state
    write_gpr PokedexLog.diff_step PokedexLog.update_state combine compare Bitmap.indices Bitmap.set
    Bitmap.union csr_eq is_same new
lines_report = refl

run_subcommand-Verdict_example :
    (pc : ℕ) × (s1 : SpikeLogBackend) × (s2 : PokedexLogBackend) × (PokedexLog.get_reset_pc
        (PokedexLog.from_logs pokedex_lines)
      ≡ ok pc)
    × (SpikeLog.diff_reset (SpikeLog.from_logs spike_lines) pc ≡ ok s1)
    × (PokedexLog.diff_reset (PokedexLog.from_logs pokedex_lines) pc ≡ ok s2)
    × Verdict spike_backend pokedex_backend success_source2 report s1 s2
run_subcommand-Verdict_example = run_subcommand-Verdict spike_lines pokedex_lines lines_report

abbrev spike_source : SpikeLogBackend
spike_source = from_logs spike_lines

abbrev pokedex_source : PokedexLogBackend
pokedex_source = record { index = 0; logs = pokedex_lines; state = new }

source_report :
    run_diff spike_backend pokedex_backend success_source2 3 spike_source pokedex_source 0x1000
    ≡ ok (some report)
unfolding PokedexLog.get_reset_pc PokedexLog.from_logs run_diff diff_reset SpikeLog.skip_to
    from_logs PokedexLog.diff_reset SpikeLog.diff_step SpikeLog.update_cpu_state write_gpr
    PokedexLog.diff_step PokedexLog.update_state combine compare Bitmap.indices Bitmap.set
    Bitmap.union csr_eq is_same new
source_report = refl

run_diff-Verdict_example :
    (s1 : SpikeLogBackend) × (s2 : PokedexLogBackend) × (SpikeLog.diff_reset spike_source 0x1000
      ≡ ok s1)
    × (PokedexLog.diff_reset pokedex_source 0x1000 ≡ ok s2)
    × Verdict spike_backend pokedex_backend success_source2 report s1 s2
unfolding from_logs new
run_diff-Verdict_example =
    run_diff-Verdict spike_backend pokedex_backend spike_backend-IsLawful pokedex_backend-IsLawful
      success_source2 3 spike_source pokedex_source 0x1000 new-IsShaped new-IsShaped
      (Agree-refl new) source_report

diff_reset-Skips_example :
    Skips max_skip 0x1000 spike_source (record { index = 1; logs = spike_lines; state = new })
unfolding diff_reset SpikeLog.skip_to from_logs
diff_reset-Skips_example = diff_reset-Skips spike_source 0x1000 refl

-- The two sides of a step that sets x5.
abbrev stepped : CpuState
stepped = record new { pc = 0x1000 }

abbrev set_x5 : CpuState × DiffRecord
set_x5 = (
  record stepped { gpr = 0 ∷ 0 ∷ 0 ∷ 0 ∷ 0 ∷ 1 ∷ replicate 26 0 },
  record no_diff { gpr_write_mask = record { word = 32 } },
)

x5-Replayed : Replayed new set_x5.1 set_x5.0
unfolding write_gpr new Bitmap.set
x5-Replayed = write_gpr-Replayed {E = ℕ} (Replayed-pc new 0x1000 new-IsShaped) 5 1 refl

compare_iff_example :
    (compare (combine set_x5.1 no_diff) set_x5.0 stepped ≡ true) ↔ Agree set_x5.0 stepped
compare_iff_example = compare_iff x5-Replayed (Replayed-pc new 0x1000 new-IsShaped) (Agree-refl new)

pretty_print_diff_iff_example :
    (pretty_print_diff new stepped ≡ pc_same new.pc ∷ []) ↔ Agree new stepped
pretty_print_diff_iff_example =
    pretty_print_diff_iff new stepped new-IsShaped (Replayed-pc new 0x1000 new-IsShaped).shaped

-- A JSON of two entries.
abbrev to_writer : PokedexLog → String
to_writer (PokedexLog.reset _) = "r"
to_writer _ = "e"

abbrev from_str : String → Option PokedexLog
from_str s = if str_eq s "r" then some (PokedexLog.reset 0x800000ac) else some (PokedexLog.exit 0)

abbrev entries : List PokedexLog
entries = PokedexLog.reset 0x800000ac ∷ PokedexLog.exit 0 ∷ []

run_files-Spells_example :
    run_files from_str example_log (unlines (map to_writer entries))
    ≡ or_problem failed (run_subcommand (csr_step ∷ load_step ∷ []) entries)
run_files-Spells_example =
    run_files-Spells from_str to_writer example_log (csr_step ∷ load_step ∷ []) entries
      example_log-EachSpells ((refl, refl), ((refl, refl), tt))

run_files_total_example : run_files from_str "" "r" ≢ ok none
run_files_total_example = run_files_total from_str "" "r"
