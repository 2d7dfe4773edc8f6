-- ===== src/Signaling/Messages.antt =====
-- The messages of proto/signaling.proto that the signaling server reads and writes, with the fields
-- that it uses, and their types on the wire (crates/voip-signaling/src/state.rs).
use three_pillars_voip.Base.{ℕ, Option, String, List}
use three_pillars_voip.Base.Int.{ℤ}
use three_pillars_voip.Core.Types.Wire.{ProtoNatInfo}
pub mod TypeId

pub record PeerRegister : Type 0 where
  pub peer_id : String
  pub display_name : String
  pub ipv6_addresses : List String
  pub ipv4_reflexive : List String
  pub nat_info : Option ProtoNatInfo
  pub status : ℤ
  pub fcm_token : String

pub record CallRequest : Type 0 where
  pub call_id : String
  pub caller_id : String
  pub callee_id : String
  pub discovery_method : ℤ

pub record CallFailed : Type 0 where
  pub call_id : String
  pub reason : ℤ
  pub description : String

pub record PushRetry : Type 0 where
  pub call_id : String
  pub caller_id : String
  pub callee_id : String
  pub reason : ℤ
  pub retry_attempt : ℕ
  pub retry_after_ms : ℕ

pub record ProxyToken : Type 0 where
  pub peer_id : String
  pub target_peer_id : String
  pub issued_at : ℕ
  pub ttl_seconds : ℕ
  pub signature : List ℕ

pub record MasqueRelayNeeded : Type 0 where
  pub call_id : String
  pub proxy_url : String
  pub wait_timeout_ms : ℕ
  pub proxy_token : Option ProxyToken

-- What prost generates. A call is accepted, rejected or ended by its id, all that the server reads.
pub record Codec : Type 0 where
  pub decode_peer_register : List ℕ → Option PeerRegister
  pub decode_peer_unregister : List ℕ → Option String
  pub decode_call_request : List ℕ → Option CallRequest
  pub decode_call_accept : List ℕ → Option String
  pub decode_call_reject : List ℕ → Option String
  pub decode_call_failed : List ℕ → Option CallFailed
  pub decode_call_ended : List ℕ → Option String
  pub encode_error : ℕ → String → List ℕ
  pub encode_push_retry : PushRetry → List ℕ
  pub encode_proxy_token : ProxyToken → List ℕ
  pub encode_relay_needed : MasqueRelayNeeded → List ℕ
