-- ===== src/Context.antt =====
-- The projection of a conversation into one bounded request (crates/fx-core/src/context.rs).
pub mod Words
pub mod Estimate
pub mod Summary
pub mod Groups
pub mod Project
mod Tests
