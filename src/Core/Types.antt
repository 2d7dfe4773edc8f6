-- ===== src/Core/Types.antt =====
-- Rust-native types, crates/voip-core/src/types.rs: one module for each enumeration, and the
-- structs that travel in messages.
pub mod NatType
pub mod PredictionConfidence
pub mod ProbeMethod
pub mod DiscoveryMethod
pub mod MediaType
pub mod CallState
pub mod SubscriptionState
pub mod PeerStatus
pub mod ConnectionMethod
pub mod CallEndReason
pub mod Nat
pub mod Track
pub mod Wire
