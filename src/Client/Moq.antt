-- ===== src/Client/Moq.antt =====
-- Media over QUIC, crates/voip-client/src/moq.rs: its wire formats and its session.
pub mod Varint
pub mod Datagram
pub mod Setup
pub mod Control
pub mod Session
