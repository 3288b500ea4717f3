-- ===== src/Cortex/Scs.antt =====
-- src/architecture/cortex_m4/system.c: the registers of the system control space.
pub mod Access
pub mod Read
pub mod Write
pub mod Guards
pub mod Priorities
pub mod Reserved
pub mod Reset
pub mod Enable
pub mod Examples
