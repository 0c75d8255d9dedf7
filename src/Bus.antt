-- ===== src/Bus.antt =====
-- simulator/src/bus: the devices, the address space, and how they are set up.
pub mod Atomic
pub mod Memory
pub mod Mmio
pub mod Space
pub mod Tests
pub mod Loader
pub mod Elf
