-- ===== src/Client/Proxy.antt =====
-- The proxy of crates/voip-client/src/proxy.rs.
pub mod Base64
pub mod Token
pub mod Relay
pub mod Record
pub mod Recovery
pub mod Cache
