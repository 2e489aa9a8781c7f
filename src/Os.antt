-- ===== src/Os.antt =====
-- The machine that the program runs on: the part of Go's `os`, `ioutil` and `exec` that it uses.
pub mod World
pub mod Files
pub mod Tree
pub mod Process
pub mod Faults
pub mod Keeps
pub mod Logged
pub mod Replaced
pub mod Lines
pub mod Completes
