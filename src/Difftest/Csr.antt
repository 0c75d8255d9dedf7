-- ===== src/Difftest/Csr.antt =====
-- `CsrState` and `CpuState::write_csr` of simulator/src/difftest/replay.rs.
pub mod Fields
use pokedex.Prelude.{
  ℕ, ◌+◌, ◌-◌, ◌*◌, ◌%◌, ◌^◌, bit_and, bit_or, Bool, ◌&&◌, String, str_eq, ◌==◌, if◌then◌else◌,
  Outcome, ok, err, ensure, ◌>>=◌, ◌>>◌, u32_mod,
}

pub record CsrState : Type 0 where
  pub fcsr : ℕ
  pub vtype : ℕ
  pub vl : ℕ
  pub vcsr : ℕ
  pub vstart : ℕ
  pub mstatus : ℕ
  pub mstatush : ℕ
  pub mtvec : ℕ
  pub mtval : ℕ
  pub mepc : ℕ
  pub mie : ℕ
  pub mscratch : ℕ

-- `CsrState::default`: vtype.ill is set, and mstatus.mpp is M.
abbrev pub default : CsrState
default = record {
  fcsr = 0;
  vtype = 0x80000000;
  vl = 0;
  vcsr = 0;
  vstart = 0;
  mstatus = 0x00001800;
  mstatush = 0;
  mtvec = 0;
  mtval = 0;
  mepc = 0;
  mie = 0;
  mscratch = 0;
}

-- the derived `==`
unfoldable pub csr_eq : CsrState → CsrState → Bool
csr_eq x y =
    x.fcsr == y.fcsr
    && x.vtype == y.vtype
    && x.vl == y.vl
    && x.vcsr == y.vcsr
    && x.vstart == y.vstart
    && x.mstatus == y.mstatus
    && x.mstatush == y.mstatush
    && x.mtvec == y.mtvec
    && x.mtval == y.mtval
    && x.mepc == y.mepc
    && x.mie == y.mie
    && x.mscratch == y.mscratch

pub data CsrValueError : Type 0 where
  csr_value_error : CsrValueError

abbrev pub mask_fcsr : ℕ
mask_fcsr = 0xFF

abbrev pub mask_fflags : ℕ
mask_fflags = 0x1F

abbrev pub mask_frm : ℕ
mask_frm = 0x07

abbrev pub mask_vcsr : ℕ
mask_vcsr = 0x07

abbrev pub mask_vxrm : ℕ
mask_vxrm = 0x03

abbrev pub mask_vxsat : ℕ
mask_vxsat = 0x01

-- `value << k` on `u32`
abbrev pub shl_u32 : ℕ → ℕ → ℕ
shl_u32 value k = value * 2 ^ k % u32_mod

-- `!mask` on `u32`
abbrev pub not_u32 : ℕ → ℕ
not_u32 mask = u32_mod - 1 - mask

-- `update`
unfoldable pub update : ℕ → ℕ → ℕ → ℕ
update src value mask = bit_or (bit_and src (not_u32 mask)) (bit_and value mask)

-- `val == val & mask`
abbrev pub fits : ℕ → ℕ → Bool
fits val mask = val == bit_and val mask

abbrev guarded : Bool → CsrState → Outcome CsrValueError CsrState
guarded test c = do ensure test csr_value_error; ok c

-- The body of `write_csr`, on the `csr` field.
unfoldable pub write : CsrState → String → ℕ → Outcome CsrValueError CsrState
write c name val =
    if str_eq name "fcsr"
    then guarded (fits val mask_fcsr) (record c { fcsr = val })
    else if str_eq name "fflags"
    then guarded (fits val mask_fflags) (record c { fcsr = update c.fcsr val mask_fflags })
    else if str_eq name "frm"
    then guarded (fits val mask_frm)
        (record c { fcsr = update c.fcsr (shl_u32 val 5) (shl_u32 mask_frm 5) })
    else if str_eq name "vtype"
    then ok (record c { vtype = val })
    else if str_eq name "vl"
    then ok (record c { vl = val })
    else if str_eq name "vcsr"
    then guarded (fits val mask_vcsr) (record c { vcsr = val })
    else if str_eq name "vxrm"
    then guarded (fits val mask_vxrm)
        (record c { vcsr = update c.vcsr (shl_u32 val 1) (shl_u32 mask_vxrm 1) })
    else if str_eq name "vxsat"
    then guarded (fits val mask_vxsat) (record c { vcsr = update c.vcsr val mask_vxsat })
    else if str_eq name "vstart"
    then ok (record c { vstart = val })
    else if str_eq name "mstatus"
    then ok (record c { mstatus = val })
    else if str_eq name "mstatush"
    then ok (record c { mstatush = val })
    else if str_eq name "mtvec"
    then ok (record c { mtvec = val })
    else if str_eq name "mepc"
    then ok (record c { mepc = val })
    else if str_eq name "mie"
    then ok (record c { mie = val })
    else if str_eq name "mscratch"
    then ok (record c { mscratch = val })
    else err csr_value_error
