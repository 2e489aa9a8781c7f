-- ===== src/Config.antt =====
-- pkg/config
pub mod Types
pub mod Values
pub mod Coerce
pub mod Fuzzy
pub mod Env
pub mod Sources
pub mod Read
pub mod Write
pub mod Cmdline
pub mod Readers
