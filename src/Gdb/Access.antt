-- ===== src/Gdb/Access.antt =====
-- The register and memory requests of simulator/src/gdb/run.rs. A method that fills a buffer takes
-- its size and returns the bytes at its front.
use pokedex.Prelude.{
  ℕ, zero, suc, ◌+◌, ◌/◌, List, [], ◌∷◌, ltb, if◌then◌else◌, Outcome, ok, err, panic, to_le_bytes,
}
use pokedex.Gdb.Registers.{RiscvRegId, x, f, pc, csr, priv, v, vlen}
use pokedex.Gdb.Chunks.{TargetError, non_fatal}
use pokedex.Gdb.Poll.{PokedexTarget}

-- `RiscvCoreRegs<u32>`
pub record CoreRegs : Type 0 where
  pub core_pc : ℕ
  pub core_x : List ℕ

-- `buf[..4].copy_from_slice(&value.to_le_bytes())`
abbrev pub word_into : ℕ → ℕ → Outcome TargetError (List ℕ)
word_into value size = if ltb size 4 then panic else ok (to_le_bytes 4 value)

module _ (t : PokedexTarget) where
  open t use {
    Target, gdb_read_pc, gdb_read_xreg, gdb_read_freg, gdb_read_vreg, gdb_read_csr, gdb_read_mem,
  }

  -- the loop over `0..32`, from `i` on
  abbrev pub xregs_from : Target → ℕ → ℕ → List ℕ
  xregs_from inner i zero = []
  xregs_from inner i (suc n) = gdb_read_xreg inner i ∷ xregs_from inner (i + 1) n

  unfoldable pub read_registers : Target → CoreRegs
  read_registers inner = record { core_pc = gdb_read_pc inner; core_x = xregs_from inner 0 32 }

  unfoldable pub write_registers : CoreRegs → Outcome TargetError (Unit {0})
  write_registers regs = err non_fatal

  unfoldable pub read_addrs : Target → ℕ → ℕ → Outcome TargetError (List ℕ)
  read_addrs inner start_addr len = ok (gdb_read_mem inner start_addr len)

  unfoldable pub write_addrs : ℕ → List ℕ → Outcome TargetError (Unit {0})
  write_addrs start_addr bytes = err non_fatal

  unfoldable pub read_register : Target → RiscvRegId → ℕ → Outcome TargetError (List ℕ)
  read_register inner pc size = word_into (gdb_read_pc inner) size
  read_register inner (x idx) size = word_into (gdb_read_xreg inner idx) size
  read_register inner (f idx) size = word_into (gdb_read_freg inner idx) size
  read_register inner (v idx) size =
      if ltb size (vlen / 8) then panic else ok (gdb_read_vreg inner idx (vlen / 8))
  read_register inner (csr idx) size = word_into (gdb_read_csr inner idx) size
  read_register inner priv size = panic
