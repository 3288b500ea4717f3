-- ===== src/Cortex/Constraints.antt =====
-- src/architecture/cortex_m4/constraints.c: the encodings that the core refuses before it executes them.
pub mod Selected
pub mod Thumb16
pub mod DataProcessing
pub mod LoadStore
pub mod Check
pub mod Multiple
pub mod Examples
