-- ===== src/Core.antt =====
-- The crate crates/voip-core: shared types, the call state machine and the configuration.
pub mod Proto
pub mod Types
pub mod Call
pub mod Crypto
pub mod Error
pub mod Config
