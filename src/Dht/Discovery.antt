-- ===== src/Dht/Discovery.antt =====
-- Finding peers and proxies, crates/voip-dht/src/discovery.rs. What the table and the signaling
-- server answer, JSON and the lowering of a text's case are parameters; the time is an argument.
pub mod Fallback
pub mod Proxies
use Prim.Native.String.{◌++◌}
use text.Mathlib.Text.{◌==◌ as str_eq}
use three_pillars_voip.Base.{
  ℕ, Bool, true, false, not, ◌&&◌, ◌||◌, ◌≡◌, ◌==◌, leb, ltb, Option, none, some, List, [], ◌∷◌,
  length, String, if◌then◌else◌,
}
use three_pillars_voip.Dht.Enums.{
  NatType, cone, symmetric_sequential, symmetric_pseudo, symmetric_random, PeerStatus, online,
  offline, in_call,
}
use three_pillars_voip.Dht.Record.{
  NatInfo, PeerRecord, ProxyRecord, expired_at, is_expired, proxy_is_expired,
}
use three_pillars_voip.Dht.Username.{UsernameRecord}

pub data DiscoveryMode : Type 0 where
  privacy_first speed_first : DiscoveryMode

pub from_bool : Bool → DiscoveryMode
from_bool true = privacy_first
from_bool false = speed_first

-- The texts of errors of HTTP and of JSON are left out.
pub data DhtError : Type 0 where
  http serialization node_error : DhtError
  not_found username_not_found : String → DhtError
  record_expired : (key : String) (expired_at : ℕ) → DhtError
  lookup_timeout : (key : String) (elapsed_ms : ℕ) → DhtError

pub data Result (A : Type 0) : Type 0 where
  ok : A → Result A
  err : DhtError → Result A

abbrev pub is_ok : {A : Type 0} → Result A → Bool
is_ok (ok a) = true
is_ok (err e) = false

infixl 5 ◌>>=◌
abbrev pub ◌>>=◌ : {A B : Type 0} → Result A → (A → Result B) → Result B
ok a >>= f = f a
err e >>= f = err e

-- The table answers with bytes, an error, or not in time.
pub data Answer : Type 0 where
  found : List ℕ → Answer
  failed timed_out : Answer

-- The server answers with a status and a body that reads or not, not at all, or not in time.
pub data Response (A : Type 0) : Type 0 where
  status : ℕ → Option A → Response A
  unreachable late : Response A

pub record PeerResponse : Type 0 where
  pub peer_id : String
  pub display_name : String
  pub ipv6_addresses : List String
  pub ipv4_reflexive : List String
  pub nat_type : String
  pub status : String

pub record ProxyEntry : Type 0 where
  pub node_id : String
  pub proxy_url : String
  pub capacity : ℕ
  pub region : String
  pub latency_hint_ms : ℕ

pub record Network : Type 0 where
  pub peer_record : String → Answer
  pub username_record : String → Answer
  pub proxy_record : String → Answer
  pub peer_response : String → Response PeerResponse
  pub username_response : String → Response String
  pub proxies_response : Response (List ProxyEntry)
  pub decode_peer : List ℕ → Option PeerRecord
  pub decode_username : List ℕ → Option UsernameRecord
  pub decode_proxy : List ℕ → Option ProxyRecord
  pub to_lowercase : String → String

abbrev pub or_serialization : {A : Type 0} → Option A → Result A
or_serialization none = err serialization
or_serialization (some a) = ok a

abbrev is_success : ℕ → Bool
is_success code = leb 200 code && ltb code 300

-- `SignalingClient`: 404 is told apart from the other failures.
abbrev pub body_of : {A : Type 0} → DhtError → DhtError → Response A → Result A
body_of missing timeout unreachable = err http
body_of missing timeout late = err timeout
body_of missing timeout (status code body) =
    if code == 404 then err missing else if is_success code then or_serialization body else err http

abbrev pub status_named : String → PeerStatus
status_named s =
    if str_eq s "online" then online else if str_eq s "in_call" then in_call else offline

abbrev without_prediction : NatType → Option NatInfo
without_prediction t = some (record { nat_type = t; prediction = none })

abbrev pub nat_info_named : String → Option NatInfo
nat_info_named s =
    if str_eq s "cone"
    then without_prediction cone
    else if str_eq s "symmetric_sequential" || str_eq s "symmetricsequential"
    then without_prediction symmetric_sequential
    else if str_eq s "symmetric_pseudo" || str_eq s "symmetricpseudo"
    then without_prediction symmetric_pseudo
    else if str_eq s "symmetric_random" || str_eq s "symmetricrandom"
    then without_prediction symmetric_random
    else none

module _ (net : Network) where
  abbrev pub record_of : ℕ → PeerResponse → PeerRecord
  record_of now r = record {
    peer_id = r.peer_id;
    display_name = r.display_name;
    ipv6_addresses = r.ipv6_addresses;
    ipv4_reflexive = r.ipv4_reflexive;
    nat_info = nat_info_named (net.to_lowercase r.nat_type);
    tracks = [];
    status = status_named (net.to_lowercase r.status);
    timestamp = now;
    ttl_seconds = 3600;
    signature = [];
  }

  -- `timeout(50 ms, lookup_peer)`.
  unfoldable pub discover_peer_signaling : ℕ → String → Result PeerRecord
  discover_peer_signaling now peer_id = do
    r ←
        body_of (not_found ("signaling:peer:" ++ peer_id)) (lookup_timeout peer_id 50)
          (net.peer_response peer_id)
    ok (record_of now r)

  abbrev pub answered : ℕ → String → Answer → Result (List ℕ)
  answered timeout_ms key (found bytes) = ok bytes
  answered timeout_ms key failed = err node_error
  answered timeout_ms key timed_out = err (lookup_timeout key timeout_ms)

  -- Nothing of the record is checked but its age.
  unfoldable pub discover_peer_dht : ℕ → ℕ → String → Result PeerRecord
  discover_peer_dht timeout_ms now peer_id = do
    bytes ← answered timeout_ms peer_id (net.peer_record peer_id)
    r ← or_serialization (net.decode_peer bytes)
    if is_expired now r
        then err (record_expired peer_id (expired_at r.timestamp r.ttl_seconds))
        else ok r

  -- The first answer, or else the second.
  abbrev pub or_else : {A : Type 0} → Result A → Result A → Result A
  or_else (ok a) other = ok a
  or_else (err e) other = other

  unfoldable pub discover_peer : Bool → ℕ → ℕ → String → Result PeerRecord
  discover_peer first_dht timeout_ms now peer_id =
      if first_dht
      then or_else (discover_peer_dht timeout_ms now peer_id) (discover_peer_signaling now peer_id)
      else or_else (discover_peer_signaling now peer_id) (discover_peer_dht timeout_ms now peer_id)

  unfoldable pub resolve_username_dht : ℕ → ℕ → String → Result PeerRecord
  resolve_username_dht timeout_ms now username = do
    bytes ← answered timeout_ms ("voip-name:" ++ username) (net.username_record username)
    r ← or_serialization (net.decode_username bytes)
    discover_peer_dht timeout_ms now r.peer_id

  unfoldable pub resolve_username_signaling : ℕ → String → Result PeerRecord
  resolve_username_signaling now username = do
    peer_id ←
        body_of (username_not_found username)
          (lookup_timeout ("signaling:username:" ++ username) 50) (net.username_response username)
    discover_peer_signaling now peer_id

  unfoldable pub discover_peer_by_username : Bool → ℕ → ℕ → String → Result PeerRecord
  discover_peer_by_username first_dht timeout_ms now username =
      let table = resolve_username_dht timeout_ms now username in
      let server = resolve_username_signaling now username in
      if first_dht then or_else table server else or_else server table

  abbrev pub unsigned_proxy : ℕ → ProxyEntry → ProxyRecord
  unsigned_proxy now e = record {
    node_id = e.node_id;
    proxy_url = e.proxy_url;
    capacity = e.capacity;
    region = e.region;
    latency_hint_ms = e.latency_hint_ms;
    timestamp = now;
    ttl_seconds = 3600;
    cert_fingerprint = "";
    signature = [];
  }
