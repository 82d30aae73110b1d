-- ===== src/Config.antt =====
-- config_store.c
pub mod Crc
pub mod Validate
pub mod Packets
pub mod Fields
pub mod Flash
pub mod Storage
pub mod Store
mod Tests
