-- ===== src/Ports.antt =====
-- The ports and their pins, src/device/kinetis/gpio.
pub mod State
pub mod Levels
pub mod Control
pub mod Gpio
pub mod Output
pub mod Flags
pub mod Examples
