-- ===== src/Permission.antt =====
-- The permission policy (crates/fx-core/src/permission.rs).
pub mod FilePath
pub mod Engine
mod Tests
