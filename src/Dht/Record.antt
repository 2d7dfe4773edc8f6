-- ===== src/Dht/Record.antt =====
-- `PeerRecord`, `ProxyRecord` and their parts, crates/voip-dht/src/record.rs, with the conversions
-- from and to the generated messages. An unknown number reads as a fixed name.
pub mod RoundTrip
use mathlib.Core.Option
use three_pillars_voip.Base.{
  ℕ, ◌+◌, ◌%◌, Bool, Option, none, some, String, List, [], map, ltb, u64_mod,
}
use three_pillars_voip.Base.Int.{ℤ}
use three_pillars_voip.Core.Proto
use three_pillars_voip.Core.Types.Wire.{
  ProtoEnum, ProtoPortPrediction, ProtoTrackAnnouncement, ProtoNatInfo,
}
use three_pillars_voip.Client.PeerCache
use three_pillars_voip.Client.Proxy.Record
use three_pillars_voip.Dht.Enums.{
  NatType, nat_type_from, nat_type_into, PredictionConfidence, random, confidence_from,
  confidence_into, MediaType, audio, media_type_from, media_type_into, PeerStatus, offline,
  status_from, status_into,
}

-- The generated messages.
abbrev pub ProtoPeerRecord : Type 0
ProtoPeerRecord = PeerCache.PeerRecord

abbrev pub ProtoProxyRecord : Type 0
ProtoProxyRecord = three_pillars_voip.Client.Proxy.Record.ProxyRecord

pub record PortPrediction : Type 0 where
  pub external_ip : String
  pub predicted_port_start : ℕ
  pub predicted_port_end : ℕ
  pub confidence : PredictionConfidence
  pub base_port : ℕ
  pub delta_pattern : ℤ
  pub probed_at : ℕ

pub record NatInfo : Type 0 where
  pub nat_type : NatType
  pub prediction : Option PortPrediction

pub record TrackAnnouncement : Type 0 where
  pub track_namespace : String
  pub codec : String
  pub priority : ℕ
  pub media_type : MediaType
  pub bitrate_max : ℕ
  pub bitrate_min : ℕ
  pub frame_duration_ms : ℕ

pub record PeerRecord : Type 0 where
  pub peer_id : String
  pub display_name : String
  pub ipv6_addresses : List String
  pub ipv4_reflexive : List String
  pub nat_info : Option NatInfo
  pub tracks : List TrackAnnouncement
  pub status : PeerStatus
  pub timestamp : ℕ
  pub ttl_seconds : ℕ
  pub signature : List ℕ

pub record ProxyRecord : Type 0 where
  pub node_id : String
  pub proxy_url : String
  pub capacity : ℕ
  pub region : String
  pub latency_hint_ms : ℕ
  pub timestamp : ℕ
  pub ttl_seconds : ℕ
  pub cert_fingerprint : String
  pub signature : List ℕ

-- The sum wraps at the width of a `u64`.
abbrev pub expired_at : ℕ → ℕ → ℕ
expired_at timestamp ttl_seconds = (timestamp + ttl_seconds) % u64_mod

unfoldable pub is_expired : ℕ → PeerRecord → Bool
is_expired now r = ltb (expired_at r.timestamp r.ttl_seconds) now

unfoldable pub proxy_is_expired : ℕ → ProxyRecord → Bool
proxy_is_expired now r = ltb (expired_at r.timestamp r.ttl_seconds) now

unfoldable pub proxy_to_proto_with_empty_sig : ProxyRecord → ProtoProxyRecord
proxy_to_proto_with_empty_sig r = record {
  node_id = r.node_id;
  proxy_url = r.proxy_url;
  capacity = r.capacity;
  region = r.region;
  latency_hint_ms = r.latency_hint_ms;
  timestamp = r.timestamp;
  ttl_seconds = r.ttl_seconds;
  cert_fingerprint = r.cert_fingerprint;
  signature = [];
}

unfoldable pub proxy_to_proto : ProxyRecord → ProtoProxyRecord
proxy_to_proto r = record (proxy_to_proto_with_empty_sig r) { signature = r.signature }

unfoldable pub proxy_from_proto : ProtoProxyRecord → ProxyRecord
proxy_from_proto p = record {
  node_id = p.node_id;
  proxy_url = p.proxy_url;
  capacity = p.capacity;
  region = p.region;
  latency_hint_ms = p.latency_hint_ms;
  timestamp = p.timestamp;
  ttl_seconds = p.ttl_seconds;
  cert_fingerprint = p.cert_fingerprint;
  signature = p.signature;
}

-- `try_from(number).map(from).unwrap_or(other)`.
unfoldable pub read_enum : {E N : Type 0} → ProtoEnum E → (E → N) → N → ℤ → N
read_enum p from other number = elim (p.try_from number) [ none ↦ other | some e ↦ from e ]

-- The numbers of the generated enumerations.
pub record Numbers : Type 0 where
  pub nat_types : ProtoEnum Proto.NatType
  pub confidences : ProtoEnum Proto.PredictionConfidence
  pub probe_methods : ProtoEnum Proto.ProbeMethod
  pub media_types : ProtoEnum Proto.MediaType
  pub statuses : ProtoEnum Proto.PeerStatus

module _ (numbers : Numbers) where
  unfoldable pub prediction_to_proto : PortPrediction → ProtoPortPrediction
  prediction_to_proto d = record {
    external_ip = d.external_ip;
    predicted_port_start = d.predicted_port_start;
    predicted_port_end = d.predicted_port_end;
    confidence = numbers.confidences.as_i32 (confidence_into d.confidence);
    base_port = d.base_port;
    delta_pattern = d.delta_pattern;
    probed_at = d.probed_at;
    probe_method = numbers.probe_methods.as_i32 Proto.ProbeMethod.quic_path_probing;
  }

  unfoldable pub prediction_from_proto : ProtoPortPrediction → PortPrediction
  prediction_from_proto p = record {
    external_ip = p.external_ip;
    predicted_port_start = p.predicted_port_start;
    predicted_port_end = p.predicted_port_end;
    confidence = read_enum numbers.confidences confidence_from random p.confidence;
    base_port = p.base_port;
    delta_pattern = p.delta_pattern;
    probed_at = p.probed_at;
  }

  unfoldable pub nat_info_to_proto : NatInfo → ProtoNatInfo
  nat_info_to_proto d = record {
    nat_type = numbers.nat_types.as_i32 (nat_type_into d.nat_type);
    prediction = Option.map prediction_to_proto d.prediction;
  }

  unfoldable pub nat_info_from_proto : ProtoNatInfo → NatInfo
  nat_info_from_proto p = record {
    nat_type = read_enum numbers.nat_types nat_type_from NatType.none p.nat_type;
    prediction = Option.map prediction_from_proto p.prediction;
  }

  unfoldable pub track_to_proto : TrackAnnouncement → ProtoTrackAnnouncement
  track_to_proto d = record {
    track_namespace = d.track_namespace;
    codec = d.codec;
    priority = d.priority;
    media_type = numbers.media_types.as_i32 (media_type_into d.media_type);
    bitrate_max = d.bitrate_max;
    bitrate_min = d.bitrate_min;
    frame_duration_ms = d.frame_duration_ms;
  }

  unfoldable pub track_from_proto : ProtoTrackAnnouncement → TrackAnnouncement
  track_from_proto p = record {
    track_namespace = p.track_namespace;
    codec = p.codec;
    priority = p.priority;
    media_type = read_enum numbers.media_types media_type_from audio p.media_type;
    bitrate_max = p.bitrate_max;
    bitrate_min = p.bitrate_min;
    frame_duration_ms = p.frame_duration_ms;
  }

  unfoldable pub to_proto_with_empty_sig : PeerRecord → ProtoPeerRecord
  to_proto_with_empty_sig r = record {
    peer_id = r.peer_id;
    display_name = r.display_name;
    ipv6_addresses = r.ipv6_addresses;
    ipv4_reflexive = r.ipv4_reflexive;
    nat_info = Option.map nat_info_to_proto r.nat_info;
    tracks = map track_to_proto r.tracks;
    status = numbers.statuses.as_i32 (status_into r.status);
    timestamp = r.timestamp;
    ttl_seconds = r.ttl_seconds;
    signature = [];
  }

  unfoldable pub to_proto : PeerRecord → ProtoPeerRecord
  to_proto r = record (to_proto_with_empty_sig r) { signature = r.signature }

  unfoldable pub from_proto : ProtoPeerRecord → PeerRecord
  from_proto p = record {
    peer_id = p.peer_id;
    display_name = p.display_name;
    ipv6_addresses = p.ipv6_addresses;
    ipv4_reflexive = p.ipv4_reflexive;
    nat_info = Option.map nat_info_from_proto p.nat_info;
    tracks = map track_from_proto p.tracks;
    status = read_enum numbers.statuses status_from offline p.status;
    timestamp = p.timestamp;
    ttl_seconds = p.ttl_seconds;
    signature = p.signature;
  }
