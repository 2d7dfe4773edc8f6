-- ===== src/Signaling.antt =====
-- The crate crates/voip-signaling: the signaling server.
pub mod Errors
pub mod RateLimit
pub mod Framing
pub mod Registry
pub mod Messages
pub mod Server
pub mod Jwt
pub mod QuicProbe
pub mod Session
pub mod Handlers
pub mod Auth
