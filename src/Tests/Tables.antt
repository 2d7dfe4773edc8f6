-- ===== src/Tests/Tables.antt =====
-- Records of the distributed table, and what is found in it.
use three_pillars_voip.Base.{ℕ, ◌≡◌, refl, none, some, Option, [], ◌∷◌, suc, zero}
use three_pillars_voip.Base.Int.{ℤ, pos}
use three_pillars_voip.Core.Proto
use three_pillars_voip.Core.Proto.{peer_online, peer_offline, peer_in_call}
use three_pillars_voip.Dht.Enums.{NatType, in_call}
use three_pillars_voip.Dht.Record.{Numbers, PeerRecord, ProxyRecord, to_proto, from_proto}
use three_pillars_voip.Dht.Record.RoundTrip.{record-round_trip}
use three_pillars_voip.Tests.Messages.{nat_types, confidences, methods, media}

abbrev status_i32 : Proto.PeerStatus → ℤ
status_i32 peer_online = pos 0
status_i32 peer_offline = pos 1
status_i32 peer_in_call = pos 2

abbrev status_try_from : ℤ → Option Proto.PeerStatus
status_try_from (pos zero) = some peer_online
status_try_from (pos (suc zero)) = some peer_offline
status_try_from (pos (suc (suc zero))) = some peer_in_call
status_try_from _ = none

status_known : (e : Proto.PeerStatus) → status_try_from (status_i32 e) ≡ some e
status_known peer_online = refl
status_known _ = refl

abbrev numbers : Numbers
numbers = record {
  nat_types = nat_types;
  confidences = confidences;
  probe_methods = methods;
  media_types = media;
  statuses = record {
    as_i32 = status_i32;
    try_from = status_try_from;
    zero_value = peer_online;
    try_from-as_i32 = status_known;
    try_from-zero = refl;
  };
}

abbrev bob : PeerRecord
bob = record {
  peer_id = "bob";
  display_name = "Bob";
  ipv6_addresses = [];
  ipv4_reflexive = "203.0.113.7:4433" ∷ [];
  nat_info = some (record { nat_type = NatType.symmetric_sequential; prediction = none });
  tracks = [];
  status = in_call;
  timestamp = 100;
  ttl_seconds = 3600;
  signature = 1 ∷ 2 ∷ [];
}

record-round_trip_example : from_proto numbers (to_proto numbers bob) ≡ bob
record-round_trip_example = record-round_trip numbers bob

abbrev relay : ℕ → ProxyRecord
relay latency = record {
  node_id = "relay";
  proxy_url = "https://relay";
  capacity = 10;
  region = "";
  latency_hint_ms = latency;
  timestamp = 100;
  ttl_seconds = 3600;
  cert_fingerprint = "";
  signature = [];
}
