-- ===== src/Memory.antt =====
-- The memory peripherals, src/device/kinetis/memory.
pub mod Bytes
pub mod Crc
pub mod Rng
