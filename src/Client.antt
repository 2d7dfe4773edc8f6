-- ===== src/Client.antt =====
-- The crate crates/voip-client: placing calls and carrying media.
pub mod PushRetry
pub mod SessionStore
pub mod Moq
pub mod Proxy
pub mod PeerCache
pub mod NatProbe
pub mod Masque
pub mod SimultaneousOpen
pub mod Connection
pub mod Migration
pub mod Audio
pub mod Pipeline
pub mod Facade
pub mod PortProber
