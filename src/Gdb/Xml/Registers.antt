-- ===== src/Gdb/Xml/Registers.antt =====
-- The registers of the target description and the numbers that `RiscvRegId` decodes.
use mathlib.Core.Path.{subst}
use pokedex.Prelude.{
  ℕ, zero, suc, ◌+◌, ◌*◌, ◌≤◌, ◌<◌, ◌≡◌, refl, ◌⊎◌, inl, inr, ◌↔◌, none, some, List, [], ◌∷◌, ◌++◌,
  String, ◌==◌, if◌then◌else◌, arith, All, Bool-cases,
}
use pokedex.Gdb.Registers.{RiscvRegId, x, f, pc, csr, v, from_raw_id, from_raw_id-raw_id}
use pokedex.Gdb.Xml.{
  Config, Reg, regs_from, xreg_at, cpu_regs, freg_at, fpu_regs, vreg_at, vector_regs,
  csr as csr_reg, csr_regs,
}

-- The debugger's number stands for a register of the described size.
pub data Agrees (r : Reg) : Type 0 where
  agrees :
      {id : RiscvRegId} {size : ℕ}
      → from_raw_id r.regnum ≡ some (id, size)
      → 8 * size ≡ r.bitsize
      → Agrees r

-- The registers that the description lists.
abbrev pub described : Config → List Reg
described config =
    cpu_regs config.xlen
    ++ ((if config.flen == 0 then [] else fpu_regs config.flen "ieee_single")
        ++ (csr_regs config ++ (if config.vlen == 0 then [] else vector_regs config.vlen)))

All-append : (P : Reg → Type 0) (xs ys : List Reg) → All P xs → All P ys → All P (xs ++ ys)
All-append P [] ys h k = k
All-append P (r ∷ rs) ys (h, hs) k = (h, All-append P rs ys hs k)

All-regs_from :
    (P : Reg → Type 0) (reg : ℕ → Reg) (from n : ℕ)
    → ((idx : ℕ) → from ≤ idx → idx < from + n → P (reg idx))
    → All P (regs_from reg from n)
All-regs_from P reg from zero h = tt
All-regs_from P reg from (suc n) h = (
  h from (omega arith) (omega arith),
  All-regs_from P reg (suc from) n λ idx lo hi. h idx (omega arith) (omega arith),
)

xreg-Agrees : (idx : ℕ) → idx < 32 → Agrees (xreg_at 32 idx)
unfolding xreg_at
xreg-Agrees idx h = agrees (from_raw_id-raw_id (x idx) h) refl

freg-Agrees : (ty : String) (idx : ℕ) → idx < 32 → Agrees (freg_at 32 ty idx)
unfolding freg_at
freg-Agrees ty idx h = agrees (from_raw_id-raw_id (f idx) h) refl

vreg-Agrees : (idx : ℕ) → idx < 32 → Agrees (vreg_at 256 idx)
unfolding vreg_at
vreg-Agrees idx h = agrees (from_raw_id-raw_id (v idx) h) refl

csr-Agrees : (idx : ℕ) (name : String) → idx < 4096 → Agrees (csr_reg idx name 32)
csr-Agrees idx name h = agrees (from_raw_id-raw_id (csr idx) h) refl

cpu_regs-Agrees : All Agrees (cpu_regs 32)
unfolding cpu_regs
cpu_regs-Agrees =
    All-append Agrees (regs_from (xreg_at 32) 0 32)
      (record { name = "pc"; bitsize = 32; ty = "code_ptr"; regnum = 32; group = none } ∷ [])
      (All-regs_from Agrees (xreg_at 32) 0 32 λ idx _ h. xreg-Agrees idx (omega arith))
      (agrees (from_raw_id-raw_id pc tt) refl, tt)

fpu_regs-Agrees :
    (flen : ℕ)
    → (flen ≡ 0) ⊎ (flen ≡ 32)
    → All Agrees (if flen == 0 then [] else fpu_regs flen "ieee_single")
unfolding fpu_regs
fpu_regs-Agrees flen (inl none_there) = rw none_there tt
fpu_regs-Agrees flen (inr single) = rw single (
    All-regs_from Agrees (freg_at 32 "ieee_single") 0 32
      λ idx _ h. freg-Agrees "ieee_single" idx (omega arith))

abbrev vector_csrs : ℕ → List Reg
vector_csrs vlen =
    if vlen == 0
    then []
    else csr_reg 0x008 "vstart" 32
      ∷ csr_reg 0x009 "vxsat" 32
      ∷ csr_reg 0x00A "vxrm" 32
      ∷ csr_reg 0x00F "vcsr" 32
      ∷ csr_reg 0xC20 "vl" 32
      ∷ csr_reg 0xC21 "vtype" 32
      ∷ csr_reg 0xC22 "vlenb" 32
      ∷ []

vector_csrs-Agrees : (vlen : ℕ) → All Agrees (vector_csrs vlen)
vector_csrs-Agrees vlen = elim (Bool-cases (vlen == 0)) [
  | inl no_vectors ↦ rw no_vectors tt
  | inr vectors ↦ rw vectors (
    csr-Agrees 0x008 "vstart" (omega arith),
    (
      csr-Agrees 0x009 "vxsat" (omega arith),
      (
        csr-Agrees 0x00A "vxrm" (omega arith),
        (
          csr-Agrees 0x00F "vcsr" (omega arith),
          (
            csr-Agrees 0xC20 "vl" (omega arith),
            (csr-Agrees 0xC21 "vtype" (omega arith), (csr-Agrees 0xC22 "vlenb" (omega arith), tt)),
          ),
        ),
      ),
    ),
  )
]

csr_regs-Agrees :
    (flen vlen : ℕ) → All Agrees (csr_regs (record { xlen = 32; flen = flen; vlen = vlen }))
unfolding csr_regs
csr_regs-Agrees flen vlen = elim (Bool-cases (flen == 0)) [
  | inl no_floats ↦ rw no_floats (vector_csrs-Agrees vlen)
  | inr floats ↦ rw floats (
    csr-Agrees 1 "fflags" (omega arith),
    (
      csr-Agrees 2 "frm" (omega arith),
      (csr-Agrees 3 "fcsr" (omega arith), vector_csrs-Agrees vlen),
    ),
  )
]

vector_regs-Agrees :
    (vlen : ℕ) → (vlen ≡ 0) ⊎ (vlen ≡ 256) → All Agrees (if vlen == 0 then [] else vector_regs vlen)
unfolding vector_regs
vector_regs-Agrees vlen (inl none_there) = rw none_there tt
vector_regs-Agrees vlen (inr fits) =
    rw fits (All-regs_from Agrees (vreg_at 256) 0 32 λ idx _ h. vreg-Agrees idx (omega arith))

-- The first vector register alone tells the length.
first_vreg : (vlen : ℕ) → Agrees (vreg_at vlen 0) → vlen ≡ 256
unfolding vreg_at
first_vreg vlen (agrees {id} {size} decoded size_fits) =
    let known = from_raw_id-raw_id (v 0) (omega arith) in let same : size ≡ 32 = cc in omega arith

All-tail : (P : Reg → Type 0) (xs ys : List Reg) → All P (xs ++ ys) → All P ys
All-tail P [] ys h = h
All-tail P (r ∷ rs) ys (_, hs) = All-tail P rs ys hs

vector_regs-length :
    (vlen : ℕ) → All Agrees (if vlen == 0 then [] else vector_regs vlen) → (vlen ≡ 0) ⊎ (vlen ≡ 256)
unfolding vector_regs
vector_regs-length vlen all = elim (Bool-cases (vlen == 0)) [
  | inl none_there ↦ inl (ground arith)
  | inr some_there ↦
      let (first, _) =
        subst (λ b. All Agrees (if b then [] else vector_regs vlen)) some_there all in
      inr (first_vreg vlen first)
]

abbrev fpu_part : ℕ → List Reg
fpu_part flen = if flen == 0 then [] else fpu_regs flen "ieee_single"

abbrev vector_part : ℕ → List Reg
vector_part vlen = if vlen == 0 then [] else vector_regs vlen

-- With registers of 32 bits and floats of none or 32, each register that the description lists is one
-- that the debugger's number decodes to, with the described size, exactly when the description has
-- no vectors or vectors of 256 bits.
pub described-Agrees_iff :
    (flen vlen : ℕ)
    → (flen ≡ 0) ⊎ (flen ≡ 32)
    → All Agrees (described (record { xlen = 32; flen = flen; vlen = vlen }))
      ↔ ((vlen ≡ 0) ⊎ (vlen ≡ 256))
described-Agrees_iff flen vlen floats =
    let csrs = csr_regs (record { xlen = 32; flen = flen; vlen = vlen }) in
    (
      (λ all. vector_regs-length vlen (
          All-tail Agrees csrs (vector_part vlen) (
            All-tail Agrees (fpu_part flen) (csrs ++ vector_part vlen)
              (All-tail Agrees (cpu_regs 32) (fpu_part flen ++ (csrs ++ vector_part vlen)) all)))),
      (λ lengths.
          All-append Agrees (cpu_regs 32) (fpu_part flen ++ (csrs ++ vector_part vlen))
            cpu_regs-Agrees
            (All-append Agrees (fpu_part flen) (csrs ++ vector_part vlen)
              (fpu_regs-Agrees flen floats)
              (All-append Agrees csrs (vector_part vlen) (csr_regs-Agrees flen vlen)
                (vector_regs-Agrees vlen lengths)))),
    )
