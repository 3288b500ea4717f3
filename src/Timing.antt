-- ===== src/Timing.antt =====
-- The timing peripherals, src/device/kinetis/timing.
pub mod State
pub mod Clock
pub mod Watchdog
pub mod Ewm
pub mod Sample
pub mod Examples
