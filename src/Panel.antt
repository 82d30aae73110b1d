-- ===== src/Panel.antt =====
-- epd.c: the driver of the panel
pub mod Gpio
pub mod Ready
pub mod Waveform
pub mod Driver
pub mod Bench
pub mod Screen
mod Tests
