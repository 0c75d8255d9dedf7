-- ===== src/Gdb/Xml.antt =====
-- The target description of simulator/src/gdb/arch.rs. A writer `f` is the text that it gets: each
-- function returns what it writes, and the list of the registers that it describes is a function of
-- its own.
pub mod Registers
pub mod Total
use Prim.Native.String.{◌++◌ as str_append}
use pokedex.Prelude.{
  ℕ, zero, suc, ◌+◌, ◌/◌, not, Bool, Option, none, some, List, [], ◌∷◌, ◌++◌, map, String, ◌==◌,
  if◌then◌else◌, Outcome, ok, panic, ◌>>=◌, get_or,
}
use pokedex.Util.Text.{concat}
use pokedex.Util.Text.Print.{decimal}

pub record Config : Type 0 where
  pub xlen : ℕ
  pub flen : ℕ
  pub vlen : ℕ

pub record Reg : Type 0 where
  pub name : String
  pub bitsize : ℕ
  pub ty : String
  pub regnum : ℕ
  pub group : Option String

-- `writeln!` ends a text with a line feed.
abbrev pub line : List String → String
line pieces = concat (pieces ++ "\n" ∷ [])

abbrev xregs_names_types : List (String × String)
xregs_names_types =
    ("zero", "int")
    ∷ ("ra", "code_ptr")
    ∷ ("sp", "data_ptr")
    ∷ ("gp", "data_ptr")
    ∷ ("tp", "data_ptr")
    ∷ ("t0", "int")
    ∷ ("t1", "int")
    ∷ ("t2", "int")
    ∷ ("fp", "data_ptr")
    ∷ ("s1", "int")
    ∷ ("a0", "int")
    ∷ ("a1", "int")
    ∷ ("a2", "int")
    ∷ ("a3", "int")
    ∷ ("a4", "int")
    ∷ ("a5", "int")
    ∷ ("a6", "int")
    ∷ ("a7", "int")
    ∷ ("s2", "int")
    ∷ ("s3", "int")
    ∷ ("s4", "int")
    ∷ ("s5", "int")
    ∷ ("s6", "int")
    ∷ ("s7", "int")
    ∷ ("s8", "int")
    ∷ ("s9", "int")
    ∷ ("s10", "int")
    ∷ ("s11", "int")
    ∷ ("t3", "int")
    ∷ ("t4", "int")
    ∷ ("t5", "int")
    ∷ ("t6", "int")
    ∷ []

abbrev freg_names : List String
freg_names =
    "ft0" ∷ "ft1" ∷ "ft2" ∷ "ft3" ∷ "ft4" ∷ "ft5" ∷ "ft6" ∷ "ft7" ∷ "fs0" ∷ "fs1" ∷ "fa0" ∷ "fa1"
    ∷ "fa2" ∷ "fa3" ∷ "fa4" ∷ "fa5" ∷ "fa6" ∷ "fa7" ∷ "fs2" ∷ "fs3" ∷ "fs4" ∷ "fs5" ∷ "fs6" ∷ "fs7"
    ∷ "fs8" ∷ "fs9" ∷ "fs10" ∷ "fs11" ∷ "ft8" ∷ "ft9" ∷ "ft10" ∷ "ft11" ∷ []

pub print_reg : Reg → String
unfolding concat
print_reg reg = concat (
    "    <reg"
    ∷ " name=\""
    ∷ reg.name
    ∷ "\""
    ∷ " bitsize=\""
    ∷ decimal reg.bitsize
    ∷ "\""
    ∷ " type=\""
    ∷ reg.ty
    ∷ "\""
    ∷ " regnum=\""
    ∷ decimal reg.regnum
    ∷ "\""
    ∷ elim reg.group [ none ↦ "" | some group ↦ concat (" group=\"" ∷ group ∷ "\"" ∷ []) ]
    ∷ "/>\n"
    ∷ [])

pub print_regs : List Reg → String
print_regs regs = concat (map print_reg regs)

pub print_feature_begin : String → String
print_feature_begin feature = line ("  <feature name=\"" ∷ feature ∷ "\">" ∷ [])

pub print_feature_end : String
print_feature_end = line ("  </feature>" ∷ [])

-- `for idx in from..from + n`
abbrev pub regs_from : (ℕ → Reg) → ℕ → ℕ → List Reg
regs_from reg from zero = []
regs_from reg from (suc n) = reg from ∷ regs_from reg (suc from) n

unfoldable pub xreg_at : ℕ → ℕ → Reg
xreg_at xlen idx =
    let (name, ty) = get_or xregs_names_types idx ("", "") in
    record { name = name; bitsize = xlen; ty = ty; regnum = idx; group = none }

unfoldable pub cpu_regs : ℕ → List Reg
unfolding xreg_at
cpu_regs xlen =
    regs_from (xreg_at xlen) 0 32
    ++ record { name = "pc"; bitsize = xlen; ty = "code_ptr"; regnum = 32; group = none } ∷ []

pub print_target_xml_cpu_features : ℕ → String
print_target_xml_cpu_features xlen = concat (
    print_feature_begin "org.gnu.gdb.riscv.cpu"
    ∷ print_regs (cpu_regs xlen)
    ∷ print_feature_end
    ∷ [])

unfoldable pub freg_at : ℕ → String → ℕ → Reg
freg_at flen ty idx = record {
  name = get_or freg_names idx "";
  bitsize = flen;
  ty = ty;
  regnum = 33 + idx;
  group = none;
}

unfoldable pub fpu_regs : ℕ → String → List Reg
unfolding freg_at
fpu_regs flen ty = regs_from (freg_at flen ty) 0 32

-- the union that a double is described with
abbrev double_union : String
double_union = concat (
    line ("    <union id=\"riscv_double\">" ∷ [])
    ∷ line ("      <field name=\"float\" type=\"ieee_single\"/>" ∷ [])
    ∷ line ("      <field name=\"double\" type=\"ieee_double\"/>" ∷ [])
    ∷ line ("    </union>" ∷ [])
    ∷ [])

pub fpu_type {ℓ} : {E : Type ℓ} → ℕ → Outcome E String
fpu_type flen =
    if flen == 32 then ok "ieee_single" else if flen == 64 then ok "riscv_double" else panic

pub print_target_xml_fpu_features {ℓ} : {E : Type ℓ} → ℕ → Outcome E String
unfolding fpu_type
print_target_xml_fpu_features flen = do
  ty ← fpu_type flen
  ok (
      concat (
        print_feature_begin "org.gnu.gdb.riscv.fpu"
        ∷ (if flen == 64 then double_union else "")
        ∷ print_regs (fpu_regs flen ty)
        ∷ print_feature_end
        ∷ []))

unfoldable pub vreg_at : ℕ → ℕ → Reg
vreg_at vlen idx = record {
  name = str_append "v" (decimal idx);
  bitsize = vlen;
  ty = "riscv_vector";
  regnum = 4162 + idx;
  group = some "vector";
}

unfoldable pub vector_regs : ℕ → List Reg
unfolding vreg_at
vector_regs vlen = regs_from (vreg_at vlen) 0 32

pub print_target_xml_vector_features : ℕ → String
print_target_xml_vector_features vlen = concat (
    print_feature_begin "org.gnu.gdb.riscv.vector"
    ∷ line ("    <vector id=\"words\" type=\"uint32\" count=\"" ∷ decimal (vlen / 32) ∷ "\"/>" ∷ [])
    ∷ line
        ("    <vector id=\"shorts\" type=\"uint16\" count=\"" ∷ decimal (vlen / 16) ∷ "\"/>" ∷ [])
    ∷ line ("    <vector id=\"bytes\" type=\"uint8\" count=\"" ∷ decimal (vlen / 8) ∷ "\"/>" ∷ [])
    ∷ line ("    <union id=\"riscv_vector\">" ∷ [])
    ∷ line ("      <field name=\"w\" type=\"words\"/>" ∷ [])
    ∷ line ("      <field name=\"s\" type=\"shorts\"/>" ∷ [])
    ∷ line ("      <field name=\"b\" type=\"bytes\"/>" ∷ [])
    ∷ line ("    </union>" ∷ [])
    ∷ print_regs (vector_regs vlen)
    ∷ print_feature_end
    ∷ [])

abbrev pub csr : ℕ → String → ℕ → Reg
csr idx name xlen = record {
  name = name;
  bitsize = xlen;
  ty = "int";
  regnum = 65 + idx;
  group = none;
}

unfoldable pub csr_regs : Config → List Reg
csr_regs config =
    let xlen = config.xlen in
    (if config.flen == 0
      then []
      else csr 0x001 "fflags" xlen ∷ csr 0x002 "frm" xlen ∷ csr 0x003 "fcsr" xlen ∷ [])
    ++ (if config.vlen == 0
        then []
        else csr 0x008 "vstart" xlen
          ∷ csr 0x009 "vxsat" xlen
          ∷ csr 0x00A "vxrm" xlen
          ∷ csr 0x00F "vcsr" xlen
          ∷ csr 0xC20 "vl" xlen
          ∷ csr 0xC21 "vtype" xlen
          ∷ csr 0xC22 "vlenb" xlen
          ∷ [])

pub print_target_xml_csr_features : Config → String
print_target_xml_csr_features config = concat (
    print_feature_begin "org.gnu.gdb.riscv.csr"
    ∷ print_regs (csr_regs config)
    ∷ print_feature_end
    ∷ [])

-- the `match` on `xlen`
pub arch_of {ℓ} : {E : Type ℓ} → ℕ → Outcome E String
arch_of xlen = if xlen == 32 then ok "riscv:rv32" else if xlen == 64 then ok "riscv:rv64" else panic

unfoldable pub print_target_xml {ℓ} : {E : Type ℓ} → Config → Outcome E String
unfolding arch_of print_target_xml_fpu_features
print_target_xml config = do
  arch ← arch_of config.xlen
  fpu ← if config.flen == 0 then ok "" else print_target_xml_fpu_features config.flen
  ok (
      concat (
        line ("<?xml version=\"1.0\"?>" ∷ [])
        ∷ line ("<!DOCTYPE target SYSTEM \"gdb-target.dtd\">" ∷ [])
        ∷ line ("<target version=\"1.0\">" ∷ [])
        ∷ line ("  <architecture>" ∷ arch ∷ "</architecture>" ∷ [])
        ∷ print_target_xml_cpu_features config.xlen
        ∷ fpu
        ∷ print_target_xml_csr_features config
        ∷ (if config.vlen == 0 then "" else print_target_xml_vector_features config.vlen)
        ∷ line ("</target>" ∷ [])
        ∷ []))

-- `Config::build_target_xml`
unfoldable pub build_target_xml {ℓ} : {E : Type ℓ} → Config → Outcome E String
unfolding print_target_xml
build_target_xml config = print_target_xml config
