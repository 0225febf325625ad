-- ===== src/Subagent.antt =====
-- Child agents (crates/fx-subagent/src/lib.rs, crates/fx-subagent/src/domain.rs).
pub mod Domain
pub mod Bounds
pub mod Child
pub mod Tree
mod Tests
