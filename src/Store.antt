-- ===== src/Store.antt =====
-- The session store (crates/fx-store/src/lib.rs; crates/fx-core/src/session.rs).
pub mod Session
pub mod Events
pub mod Durable
mod Tests
