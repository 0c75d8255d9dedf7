-- ===== src/Pokedex.antt =====
-- simulator/src/pokedex: the memory that the core sees, the steps, the log, and a run.
pub mod Callbacks
pub mod Simulator
pub mod Tracer
pub mod Stdout
pub mod Run
pub mod Tests
