-- ===== src/Tools.antt =====
-- The contract of tools, the registry, and stored results (crates/fx-core/src/tool.rs,
-- crates/fx-core/src/tool_result.rs, crates/fx-core/src/read_evidence.rs).
pub mod Types
pub mod Registry
pub mod Evidence
mod Tests
