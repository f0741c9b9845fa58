-- ===== src/Stream.antt =====
-- internal/stream.
pub mod Duplex
pub mod Adapter
pub mod Copy
