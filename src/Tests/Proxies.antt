-- ===== src/Tests/Proxies.antt =====
-- Proxy tokens, relayed sessions, the choice of a proxy and the address book on small inputs.
use three_pillars_voip.Base.{
  ℕ, ◌+◌, ◌≤◌, ◌≡◌, ◌↔◌, ◌++◌, refl, none, some, List, [], ◌∷◌, length, arith, true, String, ◌==◌,
}
use three_pillars_voip.Base.Bytes.{
  to_be_bytes, from_be_bytes, length-to_be_bytes, to_be_bytes-IsBytes,
}
use three_pillars_voip.Base.Maps.{lookup}
use three_pillars_voip.Base.Int.{pos}
use three_pillars_voip.Core.Types.DiscoveryMethod.{DiscoveryMethod}
use three_pillars_voip.Client.Proxy.Base64.{codes, base64_encode, charset, char_of}
use three_pillars_voip.Client.Proxy.Token.{ProxyToken, Ed25519, ok, utf8_from, encode, decode}
use three_pillars_voip.Client.Proxy.Token.RoundTrip.{IsValid, token-round_trip}
use three_pillars_voip.Client.Proxy.Token.Signing.{signing_message-injective}
use three_pillars_voip.Client.Proxy.Relay.{
  RelaySession, MasqueProxy, default_limits, new_tracker, check_datagram,
}
use three_pillars_voip.Client.Proxy.Relay.Checks.{Within, check_datagram-none_iff}
use three_pillars_voip.Client.Proxy.Record.{ProxyRecord}
use three_pillars_voip.Client.Proxy.Recovery.{TunnelRecoveryHandler, recovery_proxy_order, first}
use three_pillars_voip.Client.Proxy.Recovery.Order.{
  Ascending, count, preferred, tries, recovery_proxy_order_lem,
}
use three_pillars_voip.Client.Proxy.Cache.{ProxyCache}
use three_pillars_voip.Client.PeerCache.{PeerRecord, PeerAddressBook, default_settings, insert}

encoded : base64_encode (77 ∷ 97 ∷ []) ≡ codes "TWE="
unfolding base64_encode char_of charset
encoded = refl

abbrev token : ProxyToken
token = record {
  peer_id = codes "a";
  proxy_url = codes "https://p";
  expires_at = 1700000060;
  issued_at = 1700000000;
  signature = to_be_bytes 64 0;
}

token-IsValid : IsValid token
unfolding utf8_from to_be_bytes
token-IsValid = record {
  peer_id_utf8 = refl;
  proxy_url_utf8 = refl;
  peer_id_fits = omega arith;
  proxy_url_fits = omega arith;
  expires_at_fits = omega arith;
  issued_at_fits = omega arith;
  peer_id_bytes = ground arith;
  proxy_url_bytes = ground arith;
  signature_bytes = ground arith;
  signature_length = refl;
}

token-round_trip_example : decode (encode token) ≡ ok token
token-round_trip_example = token-round_trip token token-IsValid

signing_message-injective_example :
    (codes "ab" ≡ codes "ab") × (codes "cd" ≡ codes "cd") × (◌≡◌ {A = ℕ} 60 60) × (◌≡◌ {A = ℕ} 0 0)
signing_message-injective_example =
    signing_message-injective (codes "ab") (codes "ab") (codes "cd") (codes "cd") 60 60 0 0
      (omega arith) (omega arith) (omega arith) (omega arith) (omega arith) (omega arith)
      (omega arith) (omega arith) refl

pub eq_self : (n : ℕ) → (n == n) ≡ true
eq_self n = ground arith

-- A stand-in for Ed25519 with numbers for keys.
abbrev pub toy : Ed25519 ℕ ℕ
toy = record {
  sign_bytes = λ key message. to_be_bytes 64 (key + length message);
  accepts =
      λ key message s. from_be_bytes s == from_be_bytes (to_be_bytes 64 (key + length message));
  public = λ key. key;
  length-sign_bytes = λ key message. length-to_be_bytes 64 (key + length message);
  sign_bytes-IsBytes = λ key message. to_be_bytes-IsBytes 64 (key + length message);
  accepts-sign_bytes =
      λ key message. eq_self (from_be_bytes (to_be_bytes 64 (key + length message)));
}

-- Connections are numbers here.
abbrev session : RelaySession ℕ
session = record {
  call_id = "call";
  peer_a = 1;
  peer_b = some 2;
  created_at = 0;
  tracker = record (new_tracker 0 "call") { datagram_count = 300; last_datagram_time = 1500000000 };
}

abbrev proxy : MasqueProxy ℕ
proxy = record { sessions = ("call", session) ∷ []; limits = default_limits }

check_datagram-none_iff_example : (check_datagram 2000000000 "call" 1200 proxy ≡ none) ↔ (
    (1200 ≤ 1280)
    × ((s : RelaySession ℕ) × (lookup "call" proxy.sessions ≡ some s)
        × Within 2000000000 default_limits s))
check_datagram-none_iff_example = check_datagram-none_iff 2000000000 "call" 1200 proxy

abbrev at_url : String → ℕ → ProxyRecord
at_url url latency_hint_ms = record {
  node_id = "";
  proxy_url = url;
  capacity = 10;
  region = "";
  latency_hint_ms = latency_hint_ms;
  timestamp = 0;
  ttl_seconds = 60;
  cert_fingerprint = "";
  signature = [];
}

abbrev handler : TunnelRecoveryHandler
handler = record {
  cached_proxies = at_url "a" 50 ∷ at_url "b" 20 ∷ at_url "c" 30 ∷ [];
  last_proxy_url = some "c";
  max_recovery_attempts = 3;
  recovery_timeout = 600;
}

recovery_proxy_order_lem_example :
    ((rest : List ProxyRecord) × (recovery_proxy_order handler ≡ first (preferred handler) ++ rest)
      × Ascending 0 rest)
    × ((url : String) → count url (recovery_proxy_order handler) ≡ tries handler url)
recovery_proxy_order_lem_example = recovery_proxy_order_lem handler

abbrev two_proxies : ProxyCache
two_proxies = record {
  proxies = at_url "a" 50 ∷ at_url "b" 20 ∷ [];
  last_used = some "gone";
  created_at = 5;
  ttl = 100;
}

abbrev alice : PeerRecord
alice = record {
  peer_id = "alice";
  display_name = "Alice";
  ipv6_addresses = [];
  ipv4_reflexive = "203.0.113.7:40000" ∷ [];
  nat_info = none;
  tracks = [];
  status = pos 0;
  timestamp = 0;
  ttl_seconds = 300;
  signature = [];
}

abbrev book : PeerAddressBook
book = insert 10 alice DiscoveryMethod.dht default_settings
