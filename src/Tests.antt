-- ===== src/Tests.antt =====
-- The theorems at concrete inputs, and tests of the definitions.
mod Calls
mod Messages
mod Retries
mod Tickets
mod Media
mod RateLimits
mod Proxies
mod Probes
mod Registry
mod Sessions
mod Tunnels
mod Tables
mod Tokens
mod Pipelines
mod Paths
mod Clients
