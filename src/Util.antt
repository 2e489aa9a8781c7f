-- ===== src/Util.antt =====
-- pkg/util
pub mod Atomic
pub mod Calls
pub mod Decode
pub mod Password
pub mod Base64
