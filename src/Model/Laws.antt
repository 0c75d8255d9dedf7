-- ===== src/Model/Laws.antt =====
-- The two decoders of a step's result agree.
use pokedex.Prelude.{ℕ, ◌<◌, ◌≡◌, ◌↔◌, ◌⊎◌, Option, none, ok, panic, arith}
use pokedex.Model.Decode.{
  Inst, StepCode, code_from_raw, detail_from_raw, amo_op_from_raw, step_result_fetch_xcpt,
  step_result_interrupt,
}

-- Where `detail_from_raw` gives a step code and an instruction, `code_from_raw` gives the same step
-- code, and there is no instruction exactly if the raw code is that of an interrupt or of a fetch
-- exception.
pub code_from_raw-detail_from_raw :
    (code inst : ℕ) {step : StepCode} {i : Option Inst}
    → detail_from_raw {E = ℕ} code inst ≡ ok (step, i)
    → (code_from_raw {E = ℕ} code ≡ ok step)
      × ((i ≡ none) ↔ ((code ≡ step_result_interrupt) ⊎ (code ≡ step_result_fetch_xcpt)))
unfolding code_from_raw detail_from_raw
code_from_raw-detail_from_raw code inst h = ground arith

-- `amo_mem_4` panics exactly on the opcodes above the nine that the interface defines.
pub amo_op_from_raw-panic_iff : (n : ℕ) → (amo_op_from_raw {E = ℕ} n ≡ panic) ↔ (8 < n)
unfolding amo_op_from_raw
amo_op_from_raw-panic_iff n = ground arith
