-- ===== src/Tests/Sessions.antt =====
-- Sessions of the signaling server: a caller, a callee and a stranger.
use text.Mathlib.Text.{◌==◌ as str_eq}
use three_pillars_voip.Base.{
  ℕ, ◌≡◌, ◌⊎◌, refl, true, false, none, some, Option, String, List, [], ◌∷◌, if◌then◌else◌,
}
use three_pillars_voip.Base.Int.{pos}
use three_pillars_voip.Base.Maps.{lookup}
use three_pillars_voip.Core.Config
use three_pillars_voip.Signaling.RateLimit
use three_pillars_voip.Signaling.RateLimit.Buckets.{try_consume, refill}
use three_pillars_voip.Signaling.Registry.{PeerEntry, CallEntry}
use three_pillars_voip.Signaling.Errors.{ok, rate_limited_code}
use three_pillars_voip.Signaling.Messages.{CallFailed, CallRequest, PeerRegister, Codec}
use three_pillars_voip.Signaling.Server.{Server, to_peer, reply, error_message, send}
use three_pillars_voip.Signaling.Framing.{FramedMessage}
use three_pillars_voip.Signaling.Session.{
  Session, registered, limited, register, ws_handle_peer_register,
}
use three_pillars_voip.Signaling.Session.Calls.{place_call, new_call, ws_handle_call_ended}
use three_pillars_voip.Signaling.Session.Authority.{held, anonymous_ends_any_call}
use three_pillars_voip.Signaling.Session.Identity.{send_all, into, register_takes_over}
use three_pillars_voip.Signaling.Session.Leftovers.{request_to, place_call_lem}
use three_pillars_voip.Signaling.Handlers.{Rest, RegisterPeerRequest, update_peer, unregister_peer}
use three_pillars_voip.Signaling.Handlers.Authority.{authenticated_changes_own}
use three_pillars_voip.Tests.Registry.{unbounded, server, call, calling}

-- The messages of the tests all speak of the call of the tests.
abbrev named : String → List ℕ → Option String
named name [] = none
named name (b ∷ bs) = some name

abbrev request : CallRequest
request = record {
  call_id = "call";
  caller_id = "alice";
  callee_id = "bob";
  discovery_method = pos 0;
}

abbrev failure : CallFailed
failure = record { call_id = "call"; reason = pos 4; description = "blocked" }

abbrev registration_of : String → PeerRegister
registration_of peer_id = record {
  peer_id = peer_id;
  display_name = peer_id;
  ipv6_addresses = [];
  ipv4_reflexive = [];
  nat_info = none;
  status = pos 0;
  fcm_token = "";
}

abbrev decoded : {A : Type 0} → A → List ℕ → Option A
decoded a [] = none
decoded a (b ∷ bs) = some a

abbrev codec : Codec
codec = record {
  decode_peer_register = decoded (registration_of "alice");
  decode_peer_unregister = decoded "alice";
  decode_call_request = decoded request;
  decode_call_accept = decoded "call";
  decode_call_reject = decoded "call";
  decode_call_failed = decoded failure;
  decode_call_ended = decoded "call";
  encode_error = λ code text. code ∷ [];
  encode_push_retry = λ m. m.retry_attempt ∷ [];
  encode_proxy_token = λ t. t.issued_at ∷ [];
  encode_relay_needed = λ m. m.wait_timeout_ms ∷ [];
}

abbrev pub host : Server ℕ
host = record {
  peer_cache = unbounded (PeerEntry ℕ);
  call_cache = unbounded CallEntry;
  codec = codec;
  delivers = λ channel m. true;
  sign = λ bytes. bytes;
  config = Config.default;
}

abbrev session_of : Option String → Session host
session_of peer_id = record {
  world = record { app = calling; log = [] };
  peer_id = peer_id;
  tx = 7;
}

anonymous_ends_any_call_example :
    held host "call" (ws_handle_call_ended host 60 (3 ∷ []) (session_of none))
    ≡ (if str_eq "call" "call" then none else held host "call" (session_of none))
unfolding lookup
anonymous_ends_any_call_example =
    anonymous_ends_any_call host 60 (3 ∷ []) "call" "call" call (session_of none) refl refl refl

abbrev idle : Session host
idle = record (session_of (some "alice")) { world = record { app = server; log = [] } }

place_call_lem_example :
    let s' = place_call host 60 request (9 ∷ []) idle in
    (held host "call" s' ≡ none)
    ⊎ ((held host "call" s' ≡ some (new_call host 60 request))
        × (s'.world.log ≡ to_peer "bob" (request_to host (9 ∷ [])) ∷ []))
unfolding lookup
place_call_lem_example = place_call_lem host 60 request (9 ∷ []) idle refl

abbrev checked_limiter : RateLimit.RateLimiter
checked_limiter = elim (RateLimit.check 5 "alice" RateLimit.registration server.rate_limiter) [
  | none ↦ server.rate_limiter
  | some (limiter, allowed) ↦ limiter
]

abbrev mallory_as_alice : Session host
mallory_as_alice =
    registered host 60 (registration_of "alice")
      (limited host checked_limiter (session_of (some "mallory")))

-- A message, and another that is sent before it.
abbrev news : FramedMessage
news = record { type_id = 768; payload = 5 ∷ [] }

abbrev earlier : List (String × FramedMessage)
earlier = ("bob", news) ∷ []

register_takes_over_example :
    let w = send_all host earlier mallory_as_alice.world in
    let (w', e) = send host "alice" news w in
    ((true ≡ false)
      × (mallory_as_alice.peer_id ≡ some "mallory")
      × (mallory_as_alice.world.app.peers ≡ calling.peers)
      × (mallory_as_alice.world.log
          ≡ reply (error_message host rate_limited_code "registration rate limit exceeded") ∷ []))
    ⊎ ((true ≡ true)
        × (mallory_as_alice.peer_id ≡ some "alice")
        × ((w'.log, e) ≡ into host 7 "alice" news w))
unfolding lookup RateLimit.check RateLimit.check_registration RateLimit.check_map RateLimit.entry
    try_consume refill ws_handle_peer_register register
register_takes_over_example =
    register_takes_over host 5 60 (1 ∷ []) (registration_of "alice") checked_limiter true
      (session_of (some "mallory")) mallory_as_alice earlier news refl refl refl

abbrev pub rest : Rest host
rest = record {
  is_peer_id = λ id. true;
  create_jwt = λ secs id expiry. ok [];
  jwt_expiry_secs = 3600;
  show = λ n. "?";
  entries = λ peers. [];
  to_lowercase = λ s. s;
  base64_encode = λ bytes. "";
}

abbrev pub update_request : RegisterPeerRequest
update_request = record {
  peer_id = "bob";
  display_name = "Robert";
  ipv6_addresses = [];
  ipv4_reflexive = [];
  nat_type = some "CONE";
  status = none;
  fcm_token = none;
}

authenticated_changes_own_example :
    (lookup "alice" (update_peer rest 60 "bob" "bob" update_request calling).0.peers
      ≡ lookup "alice" calling.peers)
    × (lookup "alice" (unregister_peer rest "bob" "bob" calling).0.peers
        ≡ lookup "alice" calling.peers)
authenticated_changes_own_example =
    authenticated_changes_own rest 60 "bob" "bob" "alice" update_request calling refl
