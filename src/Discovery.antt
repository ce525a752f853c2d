-- ===== src/Discovery.antt =====
-- pkg/discovery: where the seeds of a node come from.
pub mod Texts
pub mod Ordering
pub mod Static
pub mod File
pub mod Dns
mod Tests
