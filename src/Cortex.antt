-- ===== src/Cortex.antt =====
-- The processor core, src/architecture/cortex_m4.
pub mod State
pub mod Sample
pub mod Priority
pub mod Pending
pub mod Selection
pub mod Exceptions
pub mod Faults
pub mod Alu
pub mod Registers
pub mod ItBlock
pub mod Mpu
pub mod Constraints
pub mod Dsp
pub mod Scs
pub mod Exclusive
pub mod Bus
pub mod Frames
pub mod Entry
pub mod SysTick
