-- ===== src/Signaling/Server.antt =====
-- The parts of crates/voip-signaling/src that act on the registry and send messages: masque.rs,
-- push.rs and the two ways of sending. What is sent stays as a log, the latest first.
pub mod Masque
pub mod Push
use three_pillars_voip.Base.{ℕ, Bool, Option, none, some, String, List, ◌∷◌}
use three_pillars_voip.Base.Int.{ℤ}
use three_pillars_voip.Core.Config.{VoipConfig}
use three_pillars_voip.Signaling.Errors.{SignalingError}
use three_pillars_voip.Signaling.Framing.{FramedMessage}
use three_pillars_voip.Signaling.Messages.{Codec}
use three_pillars_voip.Signaling.Messages.TypeId
use three_pillars_voip.Signaling.Registry
use three_pillars_voip.Signaling.Registry.{LruCache, PeerEntry, CallEntry, AppState}

-- What the server is built on: the caches, the generated code, its channels and its signing key.
pub record Server (Sender : Type 0) : Type 1 where
  pub peer_cache : LruCache (PeerEntry Sender)
  pub call_cache : LruCache CallEntry
  pub codec : Codec
  pub delivers : Sender → FramedMessage → Bool
  pub sign : List ℕ → List ℕ
  pub config : VoipConfig

pub record PushNotification : Type 0 where
  pub fcm_token : String
  pub call_id : String
  pub caller_id : String
  pub callee_id : String
  pub reason : ℤ
  pub retry_attempt : ℕ
  pub retry_after_ms : ℕ

-- Into the session's own channel, into a peer's, or by push.
pub data Sent : Type 0 where
  reply : FramedMessage → Sent
  to_peer : String → FramedMessage → Sent
  pushed : PushNotification → Sent

module _ {Sender : Type 0} (server : Server Sender) where
  pub record World : Type 0 where
    pub app : AppState server.peer_cache server.call_cache
    pub log : List Sent

  unfoldable pub error_message : ℕ → String → FramedMessage
  error_message code text = record {
    type_id = TypeId.error;
    payload = server.codec.encode_error code text;
  }

  abbrev pub with_reply : FramedMessage → World → World
  with_reply m w = record w { log = reply m ∷ w.log }

  -- `state.send_to_peer`, which may fail; what is delivered is logged.
  unfoldable pub send : String → FramedMessage → World → World × Option SignalingError
  send peer_id m w =
      let (app, e) =
        Registry.send_to_peer server.peer_cache server.call_cache server.delivers peer_id m w.app in
      elim e [
        | none ↦ (record { app = app; log = to_peer peer_id m ∷ w.log }, none)
        | some e ↦ (record w { app = app }, some e)
      ]
