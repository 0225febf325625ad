-- ===== src/Gateway.antt =====
-- The boundary to a model provider, and its retries (crates/fx-core/src/gateway.rs).
pub mod Types
pub mod Retry
mod Tests
