-- ===== src/Core/Types/Wire.antt =====
-- The structs of crates/voip-core/src/types.rs that travel in messages, with their conversions
-- from and to the generated messages of proto/signaling.proto. What prost generates for an
-- enumeration is a parameter.
pub mod RoundTrip
use mathlib.Core.Option
use three_pillars_voip.Base.{ℕ, ◌≡◌, Option, none, some, ◌>>=◌, String}
use three_pillars_voip.Base.Int.{ℤ, pos}
use three_pillars_voip.Core.Proto
use three_pillars_voip.Core.Types.NatType
use three_pillars_voip.Core.Types.PredictionConfidence
use three_pillars_voip.Core.Types.ProbeMethod
use three_pillars_voip.Core.Types.MediaType
use three_pillars_voip.Core.Types.Nat.{PortPredictionData, NatInfo}
use three_pillars_voip.Core.Types.Track.{TrackInfo}

-- What prost generates for a proto3 enumeration: its number on the wire and the way back, which
-- knows every number it writes, and 0, the number of the first name.
pub record ProtoEnum (E : Type 0) : Type 0 where
  pub as_i32 : E → ℤ
  pub try_from : ℤ → Option E
  pub zero_value : E
  pub try_from-as_i32 : (e : E) → try_from (as_i32 e) ≡ some e
  pub try_from-zero : try_from (pos 0) ≡ some zero_value

-- `i32_to_native_enum`: an unknown number reads as 0. `none` is the panic of its last `unwrap`.
module _ {E N : Type 0} ⦃p : ProtoEnum E⦄ (into : E → N) where
  pub i32_to_native_enum : ℤ → Option N
  i32_to_native_enum value = elim (p.try_from value) [
    | some e ↦ some (into e)
    | none ↦ Option.map into (p.try_from (pos 0))
  ]

-- The generated messages.
pub record ProtoPortPrediction : Type 0 where
  pub external_ip : String
  pub predicted_port_start : ℕ
  pub predicted_port_end : ℕ
  pub confidence : ℤ
  pub base_port : ℕ
  pub delta_pattern : ℤ
  pub probed_at : ℕ
  pub probe_method : ℤ

pub record ProtoTrackAnnouncement : Type 0 where
  pub track_namespace : String
  pub codec : String
  pub priority : ℕ
  pub media_type : ℤ
  pub bitrate_max : ℕ
  pub bitrate_min : ℕ
  pub frame_duration_ms : ℕ

pub record ProtoNatInfo : Type 0 where
  pub nat_type : ℤ
  pub prediction : Option ProtoPortPrediction

-- A struct from a message: `none` is a panic.
module _ ⦃c : ProtoEnum Proto.PredictionConfidence⦄ ⦃m : ProtoEnum Proto.ProbeMethod⦄ where
  pub prediction_from_proto : ProtoPortPrediction → Option PortPredictionData
  prediction_from_proto p = do
    confidence ← i32_to_native_enum PredictionConfidence.from_proto p.confidence
    probe_method ← i32_to_native_enum ProbeMethod.from_proto p.probe_method
    some (record {
      external_ip = p.external_ip;
      predicted_port_start = p.predicted_port_start;
      predicted_port_end = p.predicted_port_end;
      confidence = confidence;
      base_port = p.base_port;
      delta_pattern = p.delta_pattern;
      probed_at = p.probed_at;
      probe_method = probe_method;
    })

  pub prediction_to_proto : PortPredictionData → ProtoPortPrediction
  prediction_to_proto d = record {
    external_ip = d.external_ip;
    predicted_port_start = d.predicted_port_start;
    predicted_port_end = d.predicted_port_end;
    confidence = c.as_i32 (PredictionConfidence.to_proto d.confidence);
    base_port = d.base_port;
    delta_pattern = d.delta_pattern;
    probed_at = d.probed_at;
    probe_method = m.as_i32 (ProbeMethod.to_proto d.probe_method);
  }

module _ ⦃k : ProtoEnum Proto.MediaType⦄ where
  pub track_from_proto : ProtoTrackAnnouncement → Option TrackInfo
  track_from_proto p = do
    media_type ← i32_to_native_enum MediaType.from_proto p.media_type
    some (record {
      track_namespace = p.track_namespace;
      codec = p.codec;
      priority = p.priority;
      media_type = media_type;
      bitrate_max = p.bitrate_max;
      bitrate_min = p.bitrate_min;
      frame_duration_ms = p.frame_duration_ms;
    })

  pub track_to_proto : TrackInfo → ProtoTrackAnnouncement
  track_to_proto d = record {
    track_namespace = d.track_namespace;
    codec = d.codec;
    priority = d.priority;
    media_type = k.as_i32 (MediaType.to_proto d.media_type);
    bitrate_max = d.bitrate_max;
    bitrate_min = d.bitrate_min;
    frame_duration_ms = d.frame_duration_ms;
  }

module _ ⦃n : ProtoEnum Proto.NatType⦄ ⦃c : ProtoEnum Proto.PredictionConfidence⦄
    ⦃m : ProtoEnum Proto.ProbeMethod⦄ where
  -- `prediction.map(Into::into)`, where the conversion may panic.
  pub optional_from_proto : Option ProtoPortPrediction → Option (Option PortPredictionData)
  optional_from_proto none = some none
  optional_from_proto (some p) = Option.map some (prediction_from_proto p)

  pub nat_info_from_proto : ProtoNatInfo → Option NatInfo
  unfolding optional_from_proto
  nat_info_from_proto p = do
    nat_type ← i32_to_native_enum NatType.from_proto p.nat_type
    prediction ← optional_from_proto p.prediction
    some (record { nat_type = nat_type; prediction = prediction })

  pub nat_info_to_proto : NatInfo → ProtoNatInfo
  nat_info_to_proto d = record {
    nat_type = n.as_i32 (NatType.to_proto d.nat_type);
    prediction = Option.map prediction_to_proto d.prediction;
  }
