-- ===== src/Dht.antt =====
-- The crate crates/voip-dht: records in the distributed hash table, and finding peers by them.
pub mod Enums
pub mod Record
pub mod Signing
pub mod Username
pub mod Discovery
pub mod Node
