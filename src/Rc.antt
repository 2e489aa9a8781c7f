-- ===== src/Rc.antt =====
-- pkg/cli/rc/rc.go: the first steps of a boot. Every one of them goes on after an error.
pub mod Calls
pub mod Mounts
pub mod Steps
