-- ===== src/Proc.antt =====
-- crates/ludex-daemon/src/proc: what the readers of /proc make of the text of its files.
pub mod Fdinfo
pub mod Environ
pub mod Maps
pub mod Tree
mod Tests
