-- ===== src/Monitor.antt =====
-- The terminal-monitor state machine (crates/fx-process/src/monitor.rs).
pub mod Config
pub mod Clock
pub mod Pattern
pub mod State
pub mod Create
pub mod Machine
mod Tests
