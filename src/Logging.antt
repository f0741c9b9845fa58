-- ===== src/Logging.antt =====
-- internal/logging.
pub mod Redacting
pub mod DebugFile
pub mod Setup
