-- ===== src/Cortex/Dsp.antt =====
-- src/architecture/cortex_m4/instructions/dsp.c: the DSP instructions of Armv7E-M.
pub mod Lanes
pub mod Parallel
pub mod Saturation
pub mod Multiply
pub mod Execute
pub mod Clamp
pub mod Examples
