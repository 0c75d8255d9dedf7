-- ===== src/Gdb/Tests.antt =====
-- Debugger requests on small targets.
use pokedex.Prelude.{
  true, inr, ℕ, ◌≡◌, refl, none, some, [], ◌∷◌, drop, ok, All, ◌<◌, ◌⊎◌, ◌↔◌, panic, zero, suc,
  List, if◌then◌else◌, ◌==◌, ◌+◌, arith,
}
use pokedex.Gdb.Poll.{PokedexTarget, sw_break, poll}
use pokedex.Gdb.Poll.Laws.{FirstStop, poll-FirstStop, after_steps, RunsOn}
use pokedex.Gdb.Breakpoints.{
  insert, remove, TargetWrapper, add_sw_breakpoint, remove_sw_breakpoint, target_stopped,
  wait_for_stop_reason,
}
use pokedex.Gdb.Breakpoints.Laws.{
  wait_for_stop_reason-add_sw_breakpoint, wait_for_stop_reason-remove_sw_breakpoint,
}
use pokedex.Gdb.Xml.{Config, build_target_xml}
use pokedex.Gdb.Xml.Registers.{Agrees, described, described-Agrees_iff}
use pokedex.Gdb.Xml.Total.{IsPrintable, build_target_xml-panic_iff}
use pokedex.Gdb.Chunks.Whole.{fetch, fetch-eq-drop}

-- A target that counts its program counter up by four and exits at 0x10 with code 3.
abbrev counting : PokedexTarget
counting = record {
  Target = ℕ;
  gdb_read_pc = λ s. s;
  gdb_read_xreg = λ s i. 0;
  gdb_read_freg = λ s i. 0;
  gdb_read_vreg = λ s i n. [];
  gdb_read_csr = λ s i. 0;
  gdb_read_mem = λ s a n. [];
  gdb_is_exited = λ s. if s == 16 then some 259 else none;
  gdb_step_one = λ s. ok (s + 4);
}

polled : poll counting (12 ∷ []) 5 0 ≡ ok (some (sw_break, 12))
unfolding poll
polled = refl

poll-FirstStop_example : FirstStop counting (12 ∷ []) 0 sw_break 12
poll-FirstStop_example = poll-FirstStop counting (12 ∷ []) 5 0 polled

fetch-eq-drop_example : fetch 3 (1 ∷ 2 ∷ 3 ∷ 4 ∷ []) 1 2 8 ≡ drop 1 (1 ∷ 2 ∷ 3 ∷ 4 ∷ [])
fetch-eq-drop_example =
    fetch-eq-drop 3 (1 ∷ 2 ∷ 3 ∷ 4 ∷ []) 1 2 8 (omega arith) (omega arith) (omega arith)

runs_to_8 :
    (k between : ℕ)
    → k < 2
    → after_steps counting k 0 ≡ ok between
    → RunsOn counting [] between × (¬ (between ≡ 8))
runs_to_8 zero between lt e =
    let same : 0 ≡ between = cc in rw (← same) ((refl, refl), λ x. absurd (omega arith))
runs_to_8 (suc zero) between lt e =
    let same : 4 ≡ between = cc in rw (← same) ((refl, refl), λ x. absurd (omega arith))
runs_to_8 (suc (suc k)) between lt e = absurd (omega arith)

abbrev watched : ℕ → List ℕ → TargetWrapper counting
watched state breakpoints = record {
  inner = state;
  config = record { elf_path = []; target_xml = "" };
  breakpoints = breakpoints;
}

added : add_sw_breakpoint counting (watched 0 []) 8 ≡ ok (true, watched 0 (8 ∷ []))
unfolding add_sw_breakpoint insert
added = refl

wait_for_stop_reason-add_sw_breakpoint_example :
    wait_for_stop_reason counting 5 (watched 0 (8 ∷ []))
    ≡ ok (some (target_stopped sw_break, watched 8 (8 ∷ [])))
wait_for_stop_reason-add_sw_breakpoint_example =
    wait_for_stop_reason-add_sw_breakpoint counting (watched 0 []) (watched 0 (8 ∷ [])) 8 5 2 added
      refl refl refl runs_to_8 (omega arith)

removed : remove_sw_breakpoint counting (watched 0 (8 ∷ 12 ∷ [])) 8 ≡ ok (true, watched 0 (12 ∷ []))
unfolding remove_sw_breakpoint remove
removed = refl

waited :
    wait_for_stop_reason counting 5 (watched 0 (12 ∷ []))
    ≡ ok (some (target_stopped sw_break, watched 12 (12 ∷ [])))
unfolding wait_for_stop_reason
waited = refl

wait_for_stop_reason-remove_sw_breakpoint_example : ¬ (◌≡◌ {A = ℕ} 12 8)
wait_for_stop_reason-remove_sw_breakpoint_example =
    wait_for_stop_reason-remove_sw_breakpoint counting (watched 0 (8 ∷ 12 ∷ []))
      (watched 0 (12 ∷ [])) (watched 12 (12 ∷ [])) 8 5 removed waited

described-Agrees_iff_example :
    All Agrees (described (record { xlen = 32; flen = 32; vlen = 256 }))
    ↔ ((◌≡◌ {A = ℕ} 256 0) ⊎ (◌≡◌ {A = ℕ} 256 256))
described-Agrees_iff_example = described-Agrees_iff 32 256 (inr refl)

abbrev odd_floats : Config
odd_floats = record { xlen = 32; flen = 16; vlen = 0 }

build_target_xml-panic_iff_example :
    (build_target_xml {E = ⊥} odd_floats ≡ panic) ↔ (¬ IsPrintable odd_floats)
build_target_xml-panic_iff_example = build_target_xml-panic_iff odd_floats
