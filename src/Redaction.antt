-- ===== src/Redaction.antt =====
-- The masking of secrets (crates/fx-core/src/redaction.rs). The bytes of a text are a list of
-- numbers, and its length is below 2^63, so that no index saturates.
pub mod Bytes
pub mod Token
pub mod Assignment
pub mod Mask
pub mod TokenSpans
pub mod Spans
pub mod Masking
pub mod Secrets
mod Tests
