-- ===== src/Lib.antt =====
-- Three Pillars VoIP: peer-to-peer calls over QUIC. A core crate holds the call state machine, the
-- configuration and the types of messages; a client crate places calls, retries them by push,
-- resumes TLS sessions and sends media; a signaling server registers peers, relays the set-up of
-- calls, coordinates relays and limits rates; a distributed table holds signed records of peers and
-- proxies. The client and the server exchange frames that carry the messages of
-- proto/signaling.proto.
--
-- Files and the code they model (paths from the repository's root):
-- - Base: helpers; Base/Maps is `HashMap<String, _>` as an association list, whose order stands for
--   the map's arbitrary order of traversal; Base/Bytes is big-endian bytes; Base/Int is integers.
-- - Core/Call: crates/voip-core/src/state.rs. `CallStateMachine`, its methods `ring`, `accept`,
--   `connect`, `end` (here `end_call`), `fail`, `reject`, `timeout`, `retry` on it, `Op` and `step`
--   for a call of one of them and `run` for a history; Core/Call/Lifecycle has the documented
--   diagram as the relation `Edge`.
-- - Core/Config: crates/voip-core/src/config.rs, `VoIPConfig` and its computed settings.
-- - Core/Types: crates/voip-core/src/types.rs, a module for each enumeration, with Core/Proto for
--   the generated ones; Core/Types/Wire converts the structs. What prost generates for an
--   enumeration is the interface `ProtoEnum`: it reads back the numbers that it writes, and 0.
-- - Core/Crypto: crates/voip-core/src/crypto.rs, peer ids; Core/Error: crates/voip-core/src/error.rs.
-- - Client/PushRetry: crates/voip-client/src/push_retry.rs, handler and scheduler.
-- - Client/SessionStore: crates/voip-client/src/session_store.rs; Client/SessionStore/Tickets has
--   the two queues of one server.
-- - Client/Moq: crates/voip-client/src/moq.rs. Varint and Datagram; Setup and Control for the
--   messages of the control stream; Session for `MoqSession`, whose stream is a log of what was
--   written and whose reads are arguments.
-- - Client/Masque: crates/voip-client/src/masque.rs. Capsule (the two encodings of numbers and the
--   datagram capsule), Tunnel (`MasqueTunnel`, over the function that says which proxy is reached by
--   which transport), Need (`detect_masque_need`).
-- - Client/Connection: crates/voip-client/src/connection.rs, `establish_connection` and its
--   attempts over the interface `Net`, what the network answers. Client/SimultaneousOpen is the
--   loop of `try_simultaneous_open_full` over the turns that the runtime gives it.
-- - Client/Migration: crates/voip-client/src/migration.rs, events and `MigrationRetryHandler`.
-- - Client/Audio: crates/voip-client/src/audio.rs over the interface `Opus`.
-- - Client/PeerCache: crates/voip-client/src/peer_cache.rs, the peer address book.
-- - Client/NatProbe: crates/voip-client/src/nat_probe.rs, `classify_nat` and `compute_prediction`;
--   Cache is the prober with its cache, Cache/Locked its refresh
--   with the lock of the cache, the interface `RwLock`, Path the probing of one path, Response the parser of the
--   answer, with the format of its fields in Response/Fields.
-- - Client/PortProber: crates/voip-client/src/probe.rs, the ports of a prediction.
-- - Client/Pipeline: crates/voip-client/src/pipeline.rs. Buffering has the abstract jitter buffer,
--   Playback the runs of a receiver, Numbering what is sent.
-- - Client/Facade: crates/voip-client/src/client.rs, `Client` and the calls of its user.
-- - Client/Proxy: crates/voip-client/src/proxy.rs. Base64, Token (`ProxyToken`, its bytes, signing
--   and checking over the interface `Ed25519`), Relay (`MasqueProxy` and its limits), Recovery
--   (`TunnelRecoveryHandler`) and Cache (`ProxyCache`).
-- - Signaling/RateLimit: crates/voip-signaling/src/rate_limit.rs; Signaling/RateLimit/Buckets has
--   one bucket.
-- - Signaling/Framing and Signaling/Registry: the frames and the registry of peers and calls of
--   crates/voip-signaling/src/state.rs; the bounded cache of the lru crate is the interface
--   `LruCache`.
-- - Signaling/Jwt and Signaling/Auth: crates/voip-signaling/src/jwt.rs and auth.rs, over `Ed25519`
--   and the interface `ClaimsJson`; Auth/Sessions puts them together with the handlers.
--   Signaling/QuicProbe: crates/voip-signaling/src/quic_probe.rs, the answer to a path probe.
-- - Signaling/Errors and Signaling/Messages: crates/voip-signaling/src/error.rs, and the messages
--   that prost reads and writes, by the interface `Codec`.
-- - Signaling/Server: crates/voip-signaling/src/masque.rs and push.rs, on the registry and a log of
--   what was sent. Signaling/Session: crates/voip-signaling/src/session.rs, a WebSocket session with
--   its handlers (Calls) and its loop over messages (Dispatch). Signaling/Handlers:
--   crates/voip-signaling/src/handlers.rs, the HTTP handlers over the interface `Rest`.
-- - Dht: crates/voip-dht/src. Enums, Record, Signing and Username are record.rs; Discovery is
--   discovery.rs, over the interface `Network` for the table and the server. Node is the event loop
--   of node.rs, where a caller is a number and Kademlia's answers come with the events.
-- - Tests: the theorems at concrete inputs.
--
-- Conventions: a method that mutates its object returns the new object, beside its result if it has
-- one; an instant is a number of nanoseconds and an argument of the call that reads the clock, and
-- an elapsed time is a difference that stops at 0, as `duration_since` does. Machine integers wrap
-- at their width, as release builds do. A panic is `none` or a
-- constructor. Every loop is structural
-- recursion but two: the square root of Client/NatProbe/Sqrt runs over 32 bits, enough below 2^64,
-- and the parser of Client/NatProbe/Response on fuel, of which one more than there are fields is
-- enough for an answer in the format. The loop of Client/SimultaneousOpen runs over a list of turns,
-- and is unfinished when they are over. Locks are left out: each operation holds its lock
-- throughout, but for the refresh of Client/NatProbe/Cache/Locked, which may wait for its own.
--
-- Not modelled: sockets, QUIC connections, TLS, audio devices, HTTP, the command line, the foreign
-- function interface, logging, and the cryptographic crates; of crates/voip-client the validation of
-- migrated paths and certificates; of crates/voip-signaling the routes and the start of the server;
-- of crates/voip-dht the network of Kademlia and publishing.
pub mod Base
pub mod Core
pub mod Client
pub mod Dht
pub mod Signaling
mod Tests
