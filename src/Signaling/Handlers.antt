-- ===== src/Signaling/Handlers.antt =====
-- The HTTP handlers of crates/voip-signaling/src/handlers.rs on the registry: registration, update and
-- removal of a peer, the queries, and proxy tokens. JSON, the routes and the check of the token that
-- gives `auth` are axum's and auth.rs's.
pub mod Authority
use text.Mathlib.Text.{◌==◌ as str_eq}
use Prim.Native.String.{◌++◌}
use three_pillars_voip.Base.{
  ℕ, zero, suc, Bool, true, false, not, Option, none, some, ◌>>=◌, String, List, [], ◌∷◌, map,
  if◌then◌else◌, length, ◌==◌,
}
use three_pillars_voip.Base.Int.{ℤ, pos, negsuc}
use three_pillars_voip.Signaling.Errors.{
  SignalingError, unknown_peer, unauthorized, invalid_message, internal, rate_limited, to_string,
  Reply, ok, err,
}
use three_pillars_voip.Signaling.Messages.{ProxyToken}
use three_pillars_voip.Signaling.RateLimit
use three_pillars_voip.Signaling.Registry
use three_pillars_voip.Signaling.Registry.{PeerInfo, PeerEntry, AppState, ProxyInfo}
use three_pillars_voip.Signaling.Server.{Server}
use three_pillars_voip.Signaling.Server.Masque.{issue_proxy_token as signed_token}

pub record RegisterPeerRequest : Type 0 where
  pub peer_id : String
  pub display_name : String
  pub ipv6_addresses : List String
  pub ipv4_reflexive : List String
  pub nat_type : Option String
  pub status : Option String
  pub fcm_token : Option String

pub record RegisterPeerResponse : Type 0 where
  pub peer_id : String
  pub jwt_token : List ℕ
  pub expires_in_secs : ℕ

pub record PeerResponse : Type 0 where
  pub peer_id : String
  pub display_name : String
  pub ipv6_addresses : List String
  pub ipv4_reflexive : List String
  pub nat_type : String
  pub status : String
  pub last_seen : ℕ

pub record PeerStatusResponse : Type 0 where
  pub peer_id : String
  pub status : String

pub record LookupResponse : Type 0 where
  pub peer_id : String
  pub display_name : String
  pub status : String

pub record ProxyTokenResponse : Type 0 where
  pub token : String
  pub ttl_seconds : ℕ

-- The number of a name, or `other` for none or another name.
unfoldable pub nat_type_number : ℤ → Option String → ℤ
nat_type_number other none = other
nat_type_number other (some s) =
    if str_eq s "NONE"
    then pos 0
    else if str_eq s "CONE"
    then pos 1
    else if str_eq s "SYMMETRIC_SEQUENTIAL"
    then pos 2
    else if str_eq s "SYMMETRIC_PSEUDO"
    then pos 3
    else if str_eq s "SYMMETRIC_RANDOM"
    then pos 4
    else other

unfoldable pub status_number : ℤ → Option String → ℤ
status_number other none = other
status_number other (some s) =
    if str_eq s "ONLINE"
    then pos 0
    else if str_eq s "OFFLINE"
    then pos 1
    else if str_eq s "IN_CALL"
    then pos 2
    else other

abbrev pub nonempty_or : String → String → String
nonempty_or old new = if str_eq new "" then old else new

abbrev pub addresses_or : List String → List String → List String
addresses_or old new = if length new == 0 then old else new

abbrev pub or_token : Option String → Option String → Option String
or_token none old = old
or_token (some t) old = some t

-- `voip_core::crypto::parse_peer_id`, the tokens of jwt.rs, the printing of numbers, the cache's
-- order of traversal, `to_lowercase` and base64.
pub record Rest {Sender : Type 0} (server : Server Sender) : Type 0 where
  pub is_peer_id : String → Bool
  pub create_jwt : ℕ → String → ℕ → Reply (List ℕ)
  pub jwt_expiry_secs : ℕ
  pub show : ℤ → String
  pub entries : server.peer_cache.Cache → List (PeerEntry Sender)
  pub to_lowercase : String → String
  pub base64_encode : List ℕ → String

module _ {Sender : Type 0} {server : Server Sender} (rest : Rest server) where
  abbrev pub App : Type 0
  App = AppState server.peer_cache server.call_cache

  pub nat_type_str : ℤ → String
  nat_type_str (pos zero) = "NONE"
  nat_type_str (pos (suc zero)) = "CONE"
  nat_type_str (pos (suc (suc zero))) = "SYMMETRIC_SEQUENTIAL"
  nat_type_str (pos (suc (suc (suc zero)))) = "SYMMETRIC_PSEUDO"
  nat_type_str (pos (suc (suc (suc (suc zero))))) = "SYMMETRIC_RANDOM"
  nat_type_str val = "UNKNOWN(" ++ (rest.show val ++ ")")

  pub peer_status_str : ℤ → String
  peer_status_str (pos zero) = "ONLINE"
  peer_status_str (pos (suc zero)) = "OFFLINE"
  peer_status_str (pos (suc (suc zero))) = "IN_CALL"
  peer_status_str val = "UNKNOWN(" ++ (rest.show val ++ ")")

  abbrev pub response_of : PeerInfo → PeerResponse
  response_of info = record {
    peer_id = info.peer_id;
    display_name = info.display_name;
    ipv6_addresses = info.ipv6_addresses;
    ipv4_reflexive = info.ipv4_reflexive;
    nat_type = nat_type_str info.nat_type;
    status = peer_status_str info.status;
    last_seen = info.last_seen;
  }

  abbrev pub new_info : ℕ → RegisterPeerRequest → PeerInfo
  new_info secs body = record {
    peer_id = body.peer_id;
    display_name = body.display_name;
    ipv6_addresses = body.ipv6_addresses;
    ipv4_reflexive = body.ipv4_reflexive;
    nat_type = nat_type_number (pos 0) body.nat_type;
    status = status_number (pos 0) body.status;
    fcm_token = body.fcm_token;
    last_seen = secs;
  }

  -- What is empty or missing keeps its value.
  abbrev pub updated_info : ℕ → RegisterPeerRequest → String → PeerInfo → PeerInfo
  updated_info secs body peer_id existing = record {
    peer_id = peer_id;
    display_name = nonempty_or existing.display_name body.display_name;
    ipv6_addresses = addresses_or existing.ipv6_addresses body.ipv6_addresses;
    ipv4_reflexive = addresses_or existing.ipv4_reflexive body.ipv4_reflexive;
    nat_type = nat_type_number existing.nat_type body.nat_type;
    status = status_number existing.status body.status;
    fcm_token = or_token body.fcm_token existing.fcm_token;
    last_seen = secs;
  }

  abbrev pub register_info : PeerInfo → App → App
  register_info info a = Registry.register_peer server.peer_cache server.call_cache info none a

  abbrev pub token_reply : ℕ → String → App → App × Reply RegisterPeerResponse
  token_reply secs peer_id a = elim (rest.create_jwt secs peer_id rest.jwt_expiry_secs) [
    | err e ↦ (a, err (internal (to_string e)))
    | ok jwt ↦ (
      a,
      ok (record { peer_id = peer_id; jwt_token = jwt; expires_in_secs = rest.jwt_expiry_secs }),
    )
  ]

  -- `none` is the panic of a rate limit with an interval of 0.
  unfoldable pub register_peer :
      ℕ → ℕ → RegisterPeerRequest → App → Option (App × Reply RegisterPeerResponse)
  register_peer now secs body a =
      if not (rest.is_peer_id body.peer_id)
      then some (a, err (invalid_message "peer_id must be a valid 64-char hex Ed25519 public key"))
      else do
        (limiter, allowed) ← RateLimit.check now body.peer_id RateLimit.registration a.rate_limiter
        let checked : App = record a { rate_limiter = limiter } in
            some (
              if not allowed
              then (checked, err rate_limited)
              else token_reply secs body.peer_id (register_info (new_info secs body) checked))

  unfoldable pub update_peer :
      ℕ → String → String → RegisterPeerRequest → App → App × Reply PeerResponse
  update_peer secs auth peer_id body a =
      if not (str_eq auth peer_id)
      then (a, err (unauthorized "authenticated peer_id does not match target"))
      else let (b, found) = Registry.get_peer server.peer_cache server.call_cache peer_id a in
        elim found [
          | none ↦ (b, err (unknown_peer peer_id))
          | some existing ↦
              let info = updated_info secs body peer_id existing in
              (register_info info b, ok (response_of info))
        ]

  -- 204 on success, for a peer that is not there too.
  unfoldable pub unregister_peer : String → String → App → App × Reply ℕ
  unregister_peer auth peer_id a =
      if not (str_eq auth peer_id)
      then (a, err (unauthorized "authenticated peer_id does not match target"))
      else (Registry.unregister_peer server.peer_cache server.call_cache peer_id a, ok 204)

  unfoldable pub get_peer : String → App → App × Reply PeerResponse
  get_peer peer_id a =
      let (b, found) = Registry.get_peer server.peer_cache server.call_cache peer_id a in
      elim found [ none ↦ (b, err (unknown_peer peer_id)) | some info ↦ (b, ok (response_of info)) ]

  unfoldable pub get_peer_status : String → App → App × Reply PeerStatusResponse
  get_peer_status peer_id a =
      let (b, found) = Registry.get_peer server.peer_cache server.call_cache peer_id a in
      elim found [
        | none ↦ (b, err (unknown_peer peer_id))
        | some info ↦
            (b, ok (record { peer_id = info.peer_id; status = peer_status_str info.status }))
      ]

  unfoldable pub named : String → List (PeerEntry Sender) → Option (PeerEntry Sender)
  named query_lower [] = none
  named query_lower (e ∷ es) =
      if str_eq (rest.to_lowercase e.info.display_name) query_lower
      then some e
      else named query_lower es

  unfoldable pub lookup_peer : String → App → Reply LookupResponse
  lookup_peer username a = elim (named (rest.to_lowercase username) (rest.entries a.peers)) [
    | none ↦ err (unknown_peer username)
    | some e ↦ ok (record {
      peer_id = e.info.peer_id;
      display_name = e.info.display_name;
      status = peer_status_str e.info.status;
    })
  ]

  pub get_proxies : App → List ProxyInfo
  get_proxies a = a.proxies

  pub dht_bootstrap : App → List String
  dht_bootstrap a = a.dht_bootstrap

  unfoldable pub issue_proxy_token : ℕ → String → String → App → App × Reply ProxyTokenResponse
  issue_proxy_token secs peer_id target_peer_id a =
      let (b, caller) = Registry.get_peer server.peer_cache server.call_cache peer_id a in
      let (c, target) = Registry.get_peer server.peer_cache server.call_cache target_peer_id b in
      elim caller [
        | none ↦ (b, err (unknown_peer peer_id))
        | some _ ↦ elim target [
          | none ↦ (c, err (unknown_peer target_peer_id))
          | some _ ↦
              let bytes =
                server.codec.encode_proxy_token (signed_token server secs peer_id target_peer_id) in
              (c, ok (record { token = rest.base64_encode bytes; ttl_seconds = 60 }))
        ]
      ]
