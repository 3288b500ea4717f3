-- ===== src/Cortex/Frames.antt =====
-- src/architecture/cortex_m4/system.c: the exception frames on the stack. Addresses wrap at 32 bits.
pub mod Layout
pub mod Stack
pub mod Unstack
pub mod Ram
pub mod Restore
pub mod RoundTrip
pub mod Memory
pub mod Examples
