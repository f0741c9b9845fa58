-- ===== src/Transport/Agreement.antt =====
-- The two sides of the authentication together: Authenticator.exchange against Handshake.handshake,
-- each reading what the other writes.
pub mod Codecs
pub mod Sides
pub mod Outcome
pub mod Tests
