-- ===== src/Util.antt =====
-- simulator/src/util.rs.
pub mod Bits
pub mod Text
pub mod Bitmap
pub mod Tests
