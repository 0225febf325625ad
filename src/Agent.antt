-- ===== src/Agent.antt =====
-- The agent's loop over a model and its tools (crates/fx-core/src/agent.rs).
pub mod Types
pub mod Output
pub mod Admission
pub mod Join
pub mod Targets
pub mod Batch
pub mod Turns
mod Tests
