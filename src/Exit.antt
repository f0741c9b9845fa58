-- ===== src/Exit.antt =====
-- internal/exit: the SOCKS5 end of the tunnel.
pub mod Access
pub mod Connect
pub mod Broker
pub mod Resolver
pub mod Handler
pub mod Churn
pub mod Streams
