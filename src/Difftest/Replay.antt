-- ===== src/Difftest/Replay.antt =====
-- `CpuState` and `DiffRecord` of simulator/src/difftest/replay.rs.
pub mod Frame
pub mod Compare
use pokedex.Prelude.{
  ℕ, ◌+◌, ◌*◌, ◌<◌, Bool, ◌&&◌, List, [], ◌∷◌, String, ◌==◌, ltb, Outcome, ok, err, panic, assert,
  ◌>>=◌, ◌>>◌, length, get_or, set, take, drop, replicate, splice, all, bytes_eq,
}
use pokedex.Util.Bitmap
use pokedex.Util.Bitmap.{Bitmap32}
use pokedex.Difftest.Csr
use pokedex.Difftest.Csr.{CsrState, CsrValueError}

abbrev pub vlen_byte : ℕ
vlen_byte = 32

-- The arrays `[u32; 32]` are lists of 32 numbers, and `vregs` is the one byte vector of all 32
-- vector registers.
pub record CpuState : Type 0 where
  pub gpr : List ℕ
  pub fpr : List ℕ
  pub vregs : List ℕ
  pub pc : ℕ
  pub csr : CsrState
  pub is_reset : Bool
  pub reset_vector : ℕ
  pub is_poweroff : Bool

pub record DiffRecord : Type 0 where
  pub gpr_write_mask : Bitmap32
  pub fpr_write_mask : Bitmap32
  pub vreg_write_mask : Bitmap32

-- `DiffRecord::default`
abbrev pub no_diff : DiffRecord
no_diff = record {
  gpr_write_mask = Bitmap.empty;
  fpr_write_mask = Bitmap.empty;
  vreg_write_mask = Bitmap.empty;
}

unfoldable pub new : CpuState
new = record {
  gpr = replicate 32 0;
  fpr = replicate 32 0;
  vregs = replicate (32 * vlen_byte) 0;
  pc = 0;
  csr = Csr.default;
  is_reset = Bool.false;
  reset_vector = 0;
  is_poweroff = Bool.false;
}

abbrev pub vreg_slice : CpuState → ℕ → List ℕ
vreg_slice x idx = take vlen_byte (drop (idx * vlen_byte) x.vregs)

unfoldable pub write_gpr {ℓ} :
    {E : Type ℓ} → CpuState → ℕ → ℕ → DiffRecord → Outcome E (CpuState × DiffRecord)
write_gpr x rd val diff = do
  assert (ltb 0 rd && ltb rd 32)
  ok (
    record x { gpr = set x.gpr rd val },
    record diff { gpr_write_mask = Bitmap.set diff.gpr_write_mask rd },
  )

unfoldable pub write_fpr {ℓ} :
    {E : Type ℓ} → CpuState → ℕ → ℕ → DiffRecord → Outcome E (CpuState × DiffRecord)
write_fpr x rd val diff = do
  assert (ltb rd 32)
  ok (
    record x { fpr = set x.fpr rd val },
    record diff { fpr_write_mask = Bitmap.set diff.fpr_write_mask rd },
  )

-- `copy_from_slice` into `vreg_slice_mut(rd)`
unfoldable pub write_vreg {ℓ} :
    {E : Type ℓ} → CpuState → ℕ → List ℕ → DiffRecord → Outcome E (CpuState × DiffRecord)
write_vreg x rd bytes diff = do
  assert (ltb rd 32)
  assert (length bytes == vlen_byte)
  ok (
    record x { vregs = splice (rd * vlen_byte) bytes x.vregs },
    record diff { vreg_write_mask = Bitmap.set diff.vreg_write_mask rd },
  )

unfoldable pub write_csr : CpuState → String → ℕ → Outcome CsrValueError CpuState
write_csr x name val = do csr' ← Csr.write x.csr name val; ok (record x { csr = csr' })

unfoldable pub combine : DiffRecord → DiffRecord → DiffRecord
combine lhs rhs = record {
  gpr_write_mask = Bitmap.union lhs.gpr_write_mask rhs.gpr_write_mask;
  fpr_write_mask = Bitmap.union lhs.fpr_write_mask rhs.fpr_write_mask;
  vreg_write_mask = Bitmap.union lhs.vreg_write_mask rhs.vreg_write_mask;
}

pub compare_gpr : DiffRecord → CpuState → CpuState → Bool
compare_gpr d x y =
    all (λ i. get_or x.gpr i 0 == get_or y.gpr i 0) (Bitmap.indices d.gpr_write_mask)

pub compare_fpr : DiffRecord → CpuState → CpuState → Bool
compare_fpr d x y =
    all (λ i. get_or x.fpr i 0 == get_or y.fpr i 0) (Bitmap.indices d.fpr_write_mask)

pub compare_vreg : DiffRecord → CpuState → CpuState → Bool
compare_vreg d x y =
    all (λ i. bytes_eq (vreg_slice x i) (vreg_slice y i)) (Bitmap.indices d.vreg_write_mask)

pub compare_csr_all : CpuState → CpuState → Bool
compare_csr_all x y = Csr.csr_eq x.csr y.csr

unfoldable pub compare : DiffRecord → CpuState → CpuState → Bool
unfolding compare_gpr compare_fpr compare_vreg compare_csr_all
compare d x y =
    x.pc == y.pc
    && compare_gpr d x y
    && compare_fpr d x y
    && compare_vreg d x y
    && compare_csr_all x y
