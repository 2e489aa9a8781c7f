-- ===== src/Cc.antt =====
-- pkg/cc
pub mod K3s
pub mod Network
pub mod Environment
pub mod Applies
