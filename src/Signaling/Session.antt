-- ===== src/Signaling/Session.antt =====
-- The WebSocket session of crates/voip-signaling/src/session.rs: registration, and what the
-- handlers of calls share. The instant is an argument, in nanoseconds for the rate limiter and in
-- seconds for the records. `none` is the panic of a rate limit with an interval of 0.
pub mod Calls
pub mod Dispatch
pub mod Authority
pub mod Identity
pub mod Leftovers
use text.Mathlib.Text.{◌==◌ as str_eq}
use three_pillars_voip.Base.{
  ℕ, Bool, true, false, not, ◌&&◌, Option, none, some, ◌>>=◌, String, List, if◌then◌else◌,
}
use three_pillars_voip.Base.Int.{ℤ, pos}
use three_pillars_voip.Core.Types.Wire.{ProtoNatInfo}
use three_pillars_voip.Signaling.Errors.{
  SignalingError, code, to_string, rate_limited_code, invalid_message_code,
}
use three_pillars_voip.Signaling.Messages.{PeerRegister}
use three_pillars_voip.Signaling.RateLimit
use three_pillars_voip.Signaling.Registry
use three_pillars_voip.Signaling.Registry.{PeerInfo}
use three_pillars_voip.Signaling.Server.{Server, World, error_message, with_reply}

module _ {Sender : Type 0} (server : Server Sender) where
  -- The peer that the session acts for, and the channel into it.
  pub record Session : Type 0 where
    pub world : World server
    pub peer_id : Option String
    pub tx : Sender

  unfoldable pub refuse : ℕ → String → Session → Session
  unfolding error_message
  refuse error_code text s = record s {
    world = with_reply server (error_message server error_code text) s.world;
  }

  abbrev pub refuse_error : SignalingError → Session → Session
  refuse_error e s = refuse (code e) (to_string e) s

  -- The session acts for a peer, and not for this one.
  abbrev pub acts_for_other : Option String → String → Bool
  acts_for_other none peer_id = false
  acts_for_other (some session_peer) peer_id = not (str_eq session_peer peer_id)

  abbrev nat_type_of : Option ProtoNatInfo → ℤ
  nat_type_of none = pos 0
  nat_type_of (some n) = n.nat_type

  abbrev pub nonempty : String → Option String
  nonempty token = if str_eq token "" then none else some token

  abbrev pub peer_info : ℕ → PeerRegister → PeerInfo
  peer_info secs msg = record {
    peer_id = msg.peer_id;
    display_name = msg.display_name;
    ipv6_addresses = msg.ipv6_addresses;
    ipv4_reflexive = msg.ipv4_reflexive;
    nat_type = nat_type_of msg.nat_info;
    status = msg.status;
    fcm_token = nonempty msg.fcm_token;
    last_seen = secs;
  }

  abbrev pub registered : ℕ → PeerRegister → Session → Session
  registered secs msg s =
      let app =
        Registry.register_peer server.peer_cache server.call_cache (peer_info secs msg) (some s.tx)
          s.world.app in
      record s { world = record s.world { app = app }; peer_id = some msg.peer_id }

  abbrev pub limited : RateLimit.RateLimiter → Session → Session
  limited limiter s = record s {
    world = record s.world { app = record s.world.app { rate_limiter = limiter } };
  }

  unfoldable pub register : ℕ → ℕ → PeerRegister → Session → Option Session
  register now secs msg s = do
    (limiter, allowed) ←
        RateLimit.check now msg.peer_id RateLimit.registration s.world.app.rate_limiter
    some (
        if not allowed
        then refuse rate_limited_code "registration rate limit exceeded" (limited limiter s)
        else registered secs msg (limited limiter s))

  unfoldable pub ws_handle_peer_register : ℕ → ℕ → List ℕ → Session → Option Session
  ws_handle_peer_register now secs payload s = elim (server.codec.decode_peer_register payload) [
    | none ↦ some (refuse invalid_message_code "invalid PeerRegister payload" s)
    | some msg ↦ register now secs msg s
  ]

  unfoldable pub ws_handle_peer_unregister : List ℕ → Session → Session
  ws_handle_peer_unregister payload s = elim (server.codec.decode_peer_unregister payload) [
    | none ↦ s
    | some peer_id ↦
        let app =
          Registry.unregister_peer server.peer_cache server.call_cache peer_id s.world.app in
        record s { world = record s.world { app = app }; peer_id = none }
  ]
