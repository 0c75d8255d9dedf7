-- ===== src/Model.antt =====
-- simulator/src/model/mod.rs: the handle of the core, and what a step of it returns. The core
-- itself is a shared library, a parameter here: its `step` is a program that may call back into
-- the memory, and answers arrive as the C interface passes them.
pub mod Decode
pub mod Desc
pub mod Laws
pub mod Tests
use pokedex.Prelude.{
  ℕ, ◌%◌, bit_and, Bool, ◌&&◌, Option, ◌==◌, List, ltb, Outcome, ok, assert, ◌>>=◌, ◌>>◌, as_u32,
  as_u8, take, map,
}
use pokedex.Util.Bitmap
use pokedex.Util.Bitmap.{from_mask}
use pokedex.Model.Decode.{StepCode, Inst, detail_from_raw, code_from_raw}

-- `pokedex_trace_buffer`
pub record TraceBuffer : Type 0 where
  pub step_status : ℕ
  pub pc : ℕ
  pub inst : ℕ
  pub xreg_mask : ℕ
  pub freg_mask : ℕ
  pub vreg_mask : ℕ
  pub csr_count : ℕ
  pub csr_indices : List ℕ

-- A call of a function of `pokedex_mem_callback_vtable`.
pub data Request : Type 0 where
  inst_fetch_2 read_mem_1 read_mem_2 read_mem_4 : ℕ → Request
  write_mem_1 write_mem_2 write_mem_4 : ℕ → ℕ → Request
  amo_mem_4 : ℕ → ℕ → ℕ → Request
  lr_mem_4 : ℕ → Request
  sc_mem_4 : ℕ → ℕ → Request

-- The returned `c_int`, and what was stored at `ret`.
abbrev pub Reply : Type 0
Reply = ℕ × Option ℕ

-- One step of the core: it returns a code and its state, after some calls.
pub data Program (S : Type 0) : Type 0 where
  return : ℕ → S → Program S
  call : Request → (Reply → Program S) → Program S

-- `pokedex_model_export`; the getters store 64-bit values.
pub record ModelExport : Type 1 where
  pub State : Type 0
  pub get_pc : State → ℕ
  pub get_xreg : State → ℕ → ℕ
  pub get_freg : State → ℕ → ℕ
  pub get_csr : State → ℕ → ℕ
  pub get_vreg : State → ℕ → ℕ → List ℕ
  pub reset : State → ℕ → State
  pub step : State → Program State
  pub get_trace_buffer : State → TraceBuffer

-- `POKEDEX_MAX_CSR_WRITE`
abbrev pub max_csr_write : ℕ
max_csr_write = 16

module _ (m : ModelExport) where
  open m use {State, get_pc, get_xreg, get_freg, get_csr, get_vreg, get_trace_buffer}

  unfoldable pub read_pc : State → ℕ
  read_pc core = as_u32 (get_pc core)

  unfoldable pub read_xreg : State → ℕ → ℕ
  read_xreg core idx = as_u32 (get_xreg core idx)

  unfoldable pub read_freg : State → ℕ → ℕ
  read_freg core idx = as_u32 (get_freg core idx)

  -- the buffer of `len` bytes filled
  unfoldable pub read_vreg : State → ℕ → ℕ → List ℕ
  read_vreg core idx len = get_vreg core idx len

  unfoldable pub read_csr : State → ℕ → ℕ
  read_csr core idx = as_u32 (get_csr core idx)

  pub record CoreChange : Type 0 where
    pub core : State
    pub tb : TraceBuffer

  -- `x as u8` of an index
  abbrev pub change_indices : ℕ → List ℕ
  change_indices mask = map as_u8 (Bitmap.indices (from_mask mask))

  unfoldable pub xreg_change_indices : CoreChange → List ℕ
  xreg_change_indices change = change_indices change.tb.xreg_mask

  unfoldable pub freg_change_indices : CoreChange → List ℕ
  freg_change_indices change = change_indices change.tb.freg_mask

  unfoldable pub vreg_change_indices : CoreChange → List ℕ
  vreg_change_indices change = change_indices change.tb.vreg_mask

  -- `csr_indices[..csr_count]`; `step_trace` has checked that the count is in range.
  unfoldable pub csr_change_indices : CoreChange → List ℕ
  csr_change_indices change = take change.tb.csr_count change.tb.csr_indices

  unfoldable pub xreg_changes : CoreChange → List (ℕ × ℕ)
  unfolding xreg_change_indices read_xreg
  xreg_changes change =
      let core = change.core in map (λ x. (x, read_xreg core x)) (xreg_change_indices change)

  unfoldable pub freg_changes : CoreChange → List (ℕ × ℕ)
  unfolding freg_change_indices read_freg
  freg_changes change =
      let core = change.core in map (λ x. (x, read_freg core x)) (freg_change_indices change)

  unfoldable pub csr_changes : CoreChange → List (ℕ × ℕ)
  unfolding csr_change_indices read_csr
  csr_changes change =
      let core = change.core in map (λ x. (x, read_csr core x)) (csr_change_indices change)

  unfoldable pub is_empty_changes : CoreChange → Bool
  is_empty_changes change =
      let tb = change.tb in
      tb.xreg_mask == 0 && tb.freg_mask == 0 && tb.vreg_mask == 0 && tb.csr_count == 0

  pub record StepDetail : Type 0 where
    pub code : StepCode
    pub pc : ℕ
    pub inst : Option Inst
    pub changes : CoreChange

  -- `step_trace`, after the core's `step` has returned the code
  unfoldable pub detail_of_step {ℓ} : {E : Type ℓ} → ℕ → State → Outcome E StepDetail
  unfolding detail_from_raw
  detail_of_step code core = do
    let tb = get_trace_buffer core
    assert (code == tb.step_status)
    assert (bit_and tb.xreg_mask 1 == 0)
    assert (ltb tb.csr_count max_csr_write)
    (code', inst) ← detail_from_raw code tb.inst
    ok (record { code = code'; pc = tb.pc; inst = inst; changes = record { core = core; tb = tb } })
