-- ===== src/Security.antt =====
-- The encrypted session: crypto.c and security.c.
pub mod Crypto
pub mod Session
mod Tests
