-- ===== src/Relay.antt =====
-- internal/relay.
pub mod Registry
pub mod Bridge
pub mod Pair
pub mod Service
pub mod System
