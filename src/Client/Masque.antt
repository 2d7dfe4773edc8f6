-- ===== src/Client/Masque.antt =====
-- The tunnel through a MASQUE proxy, crates/voip-client/src/masque.rs.
pub mod Capsule
pub mod Tunnel
pub mod Need
