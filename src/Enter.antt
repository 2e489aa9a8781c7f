-- ===== src/Enter.antt =====
-- pkg/enterchroot: the way from the first process into the root file system.
pub mod Scan
pub mod Host
pub mod Loop
pub mod Root
pub mod Run
