-- ===== src/Difftest.antt =====
-- simulator/src/difftest: the comparison of a pokedex log with a Spike log.
pub mod Csr
pub mod Replay
pub mod Backend
pub mod PokedexLog
pub mod SpikeText
pub mod SpikeLog
pub mod SpikeParse
pub mod Notes
pub mod Dump
pub mod Run
pub mod Subcommand
pub mod Files
pub mod Tests
