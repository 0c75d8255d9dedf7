-- ===== src/Difftest/Notes.antt =====
-- `pretty_print_diff` of simulator/src/difftest/replay.rs. A line of its text is a `Note` here,
-- with the numbers that the line shows.
pub mod Laws
use pokedex.Prelude.{
  ℕ, zero, suc, ◌+◌, ◌*◌, Bool, not, List, [], ◌∷◌, ◌++◌, String, ◌==◌, if◌then◌else◌, get_or, take,
  drop, bytes_eq,
}
use pokedex.Difftest.Replay.{CpuState, vreg_slice}

pub data Note : Type 0 where
  pc_same : ℕ → Note
  pc_differs : ℕ → ℕ → Note
  x_differs f_differs : ℕ → ℕ → ℕ → Note
  csr_differs : String → ℕ → ℕ → Note
  vreg_header : Note
  -- register, first bit, and the eight bytes on both sides
  vreg_fragment : ℕ → ℕ → List ℕ → List ℕ → Note

-- `for i in lo..lo + n`, with what each round writes
abbrev pub for_range {ℓ} : {A : Type ℓ} → ℕ → ℕ → (ℕ → List A) → List A
for_range lo zero f = []
for_range lo (suc n) f = f lo ++ for_range (suc lo) n f

abbrev pub when_ne : ℕ → ℕ → Note → List Note
when_ne gold dut note = if not (gold == dut) then note ∷ [] else []

pub pc_notes : CpuState → CpuState → List Note
pc_notes gold dut =
    if not (gold.pc == dut.pc) then pc_differs gold.pc dut.pc ∷ [] else pc_same gold.pc ∷ []

abbrev pub gpr_note : CpuState → CpuState → ℕ → List Note
gpr_note gold dut i =
    let goldv = get_or gold.gpr i 0 in
    let dutv = get_or dut.gpr i 0 in when_ne goldv dutv (x_differs i goldv dutv)

pub gpr_notes : CpuState → CpuState → List Note
gpr_notes gold dut = for_range 0 32 (gpr_note gold dut)

abbrev pub fpr_note : CpuState → CpuState → ℕ → List Note
fpr_note gold dut i =
    let goldv = get_or gold.fpr i 0 in
    let dutv = get_or dut.fpr i 0 in when_ne goldv dutv (f_differs i goldv dutv)

pub fpr_notes : CpuState → CpuState → List Note
fpr_notes gold dut = for_range 0 32 (fpr_note gold dut)

-- `diff_csr!`
abbrev pub diff_csr : String → ℕ → ℕ → List Note
diff_csr name goldv dutv = when_ne goldv dutv (csr_differs name goldv dutv)

pub csr_notes : CpuState → CpuState → List Note
csr_notes gold dut =
    let g = gold.csr in
    let d = dut.csr in
    diff_csr "fcsr" g.fcsr d.fcsr
    ++ (diff_csr "vtype" g.vtype d.vtype
        ++ (diff_csr "vl" g.vl d.vl
            ++ (diff_csr "vcsr" g.vcsr d.vcsr
                ++ (diff_csr "vstart" g.vstart d.vstart
                    ++ (diff_csr "mstatus" g.mstatus d.mstatus
                        ++ (diff_csr "mstatush" g.mstatush d.mstatush
                            ++ (diff_csr "mtvec" g.mtvec d.mtvec
                                ++ (diff_csr "mtval" g.mtval d.mtval
                                    ++ (diff_csr "mepc" g.mepc d.mepc
                                        ++ (diff_csr "mie" g.mie d.mie
                                            ++ diff_csr "mscratch" g.mscratch d.mscratch))))))))))

-- The four fragments of one vector register.
abbrev pub fragments : ℕ → List ℕ → List ℕ → List Note
fragments i goldv dutv =
    for_range 0 4
      λ j. vreg_fragment i (j * 64) (take 8 (drop (8 * j) goldv)) (take 8 (drop (8 * j) dutv)) ∷ []

abbrev pub vreg_note : CpuState → CpuState → ℕ → List Note
vreg_note gold dut i =
    let goldv = vreg_slice gold i in
    let dutv = vreg_slice dut i in if not (bytes_eq goldv dutv) then fragments i goldv dutv else []

pub vreg_notes : CpuState → CpuState → List Note
vreg_notes gold dut =
    if not (bytes_eq gold.vregs dut.vregs)
    then vreg_header ∷ for_range 0 32 (vreg_note gold dut)
    else []

unfoldable pub pretty_print_diff : CpuState → CpuState → List Note
unfolding pc_notes gpr_notes fpr_notes csr_notes vreg_notes
pretty_print_diff gold dut =
    pc_notes gold dut
    ++ (gpr_notes gold dut ++ (fpr_notes gold dut ++ (csr_notes gold dut ++ vreg_notes gold dut)))
