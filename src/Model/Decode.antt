-- ===== src/Model/Decode.antt =====
-- The decoding of raw values in simulator/src/model/ffi.rs. The raw numbers are those of
-- simulator/include/pokedex_interface.h.
use pokedex.Prelude.{ℕ, Option, none, some, ◌==◌, if◌then◌else◌, Outcome, ok, panic, as_u16}
use pokedex.Bus.Atomic.{AtomicOp}

pub data Inst : Type 0 where
  nc : ℕ → Inst
  c : ℕ → Inst

pub data StepCode : Type 0 where
  interrupt exception committed : StepCode

abbrev pub step_result_fetch_xcpt : ℕ
step_result_fetch_xcpt = 1

abbrev pub step_result_inst_exception : ℕ
step_result_inst_exception = 2

abbrev pub step_result_inst_commit : ℕ
step_result_inst_commit = 4

abbrev pub step_result_inst_c_exception : ℕ
step_result_inst_c_exception = 10

abbrev pub step_result_inst_c_commit : ℕ
step_result_inst_c_commit = 12

abbrev pub step_result_interrupt : ℕ
step_result_interrupt = 16

-- `code_from_raw`
unfoldable pub code_from_raw {ℓ} : {E : Type ℓ} → ℕ → Outcome E StepCode
code_from_raw code =
    if code == step_result_interrupt
    then ok StepCode.interrupt
    else if code == step_result_fetch_xcpt
    then ok StepCode.exception
    else if code == step_result_inst_exception
    then ok StepCode.exception
    else if code == step_result_inst_c_exception
    then ok StepCode.exception
    else if code == step_result_inst_commit
    then ok StepCode.committed
    else if code == step_result_inst_c_commit
    then ok StepCode.committed
    else panic

-- `detail_from_raw`
unfoldable pub detail_from_raw {ℓ} : {E : Type ℓ} → ℕ → ℕ → Outcome E (StepCode × Option Inst)
detail_from_raw code inst =
    if code == step_result_interrupt
    then ok (StepCode.interrupt, none)
    else if code == step_result_fetch_xcpt
    then ok (StepCode.exception, none)
    else if code == step_result_inst_exception
    then ok (StepCode.exception, some (nc inst))
    else if code == step_result_inst_c_exception
    then ok (StepCode.exception, some (c (as_u16 inst)))
    else if code == step_result_inst_commit
    then ok (StepCode.committed, some (nc inst))
    else if code == step_result_inst_c_commit
    then ok (StepCode.committed, some (c (as_u16 inst)))
    else panic

-- the `match` on `amo_op` in `amo_mem_4`, with POKEDEX_AMO_SWAP = 0 up to POKEDEX_AMO_MINU = 8
unfoldable pub amo_op_from_raw {ℓ} : {E : Type ℓ} → ℕ → Outcome E AtomicOp
amo_op_from_raw amo_op =
    if amo_op == 0
    then ok AtomicOp.swap
    else if amo_op == 1
    then ok AtomicOp.add
    else if amo_op == 2
    then ok AtomicOp.and
    else if amo_op == 3
    then ok AtomicOp.or
    else if amo_op == 4
    then ok AtomicOp.xor
    else if amo_op == 6
    then ok AtomicOp.minimum
    else if amo_op == 5
    then ok AtomicOp.maximum
    else if amo_op == 8
    then ok AtomicOp.minimum_u
    else if amo_op == 7
    then ok AtomicOp.maximum_u
    else panic
