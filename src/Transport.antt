-- ===== src/Transport.antt =====
-- internal/transport: the wire protocol between a client and the relay.
pub mod Conn
pub mod Framing
pub mod Timing
pub mod Records
pub mod Tls
pub mod Mux
pub mod Handshake
pub mod Authenticator
pub mod Connector
pub mod Session
pub mod Retry
pub mod Linking
pub mod Agreement
