-- ===== src/Telemetry.antt =====
-- telemetry.c: temperature and supply voltage in the last bytes of the advertised data
pub mod Int
pub mod Read
pub mod Packing
pub mod Units
mod Tests
