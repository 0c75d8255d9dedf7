-- ===== src/Gdb.antt =====
-- simulator/src/gdb: the target that the debugger's server drives. The protocol is a package's.
pub mod Registers
pub mod Xml
pub mod Chunks
pub mod Poll
pub mod Access
pub mod Breakpoints
pub mod Tests
