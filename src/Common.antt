-- ===== src/Common.antt =====
-- simulator/src/common.rs: the trace log that a run writes and that the difftest reads.
use pokedex.Prelude.{ℕ, Bool, List, String}

pub data StateWrite : Type 0 where
  xrf : ℕ → ℕ → StateWrite
  frf : ℕ → ℕ → StateWrite
  vrf : ℕ → List ℕ → StateWrite
  csr : String → ℕ → StateWrite

pub record CommitLog : Type 0 where
  pub pc : ℕ
  pub is_compressed : Bool
  pub instruction : ℕ
  pub states_changed : List StateWrite

pub data PokedexLog : Type 0 where
  reset : ℕ → PokedexLog
  exit : ℕ → PokedexLog
  commit : CommitLog → PokedexLog
  exception : CommitLog → PokedexLog
