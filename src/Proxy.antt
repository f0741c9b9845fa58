-- ===== src/Proxy.antt =====
-- internal/proxy.
pub mod Forward
pub mod Admission
pub mod Bridge
pub mod Accepting
