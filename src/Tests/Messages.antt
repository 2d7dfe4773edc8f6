-- ===== src/Tests/Messages.antt =====
-- Structs that travel in messages, and frames.
use three_pillars_voip.Base.{zero, suc, ◌≡◌, refl, none, some, Option}
use three_pillars_voip.Base.Int.{ℤ, pos}
use three_pillars_voip.Core.Proto
use three_pillars_voip.Core.Proto.{
  nat_none, nat_cone, nat_symmetric_sequential, nat_symmetric_pseudo, nat_symmetric_random,
  sequential, pseudo_sequential, random, quic_path_probing, media_audio, media_video, media_screen,
}
use three_pillars_voip.Core.Types.NatType
use three_pillars_voip.Core.Types.PredictionConfidence
use three_pillars_voip.Core.Types.PredictionConfidence.{is_predictable}
use three_pillars_voip.Core.Types.ProbeMethod
use three_pillars_voip.Core.Types.Nat.{PortPredictionData, NatInfo}
use three_pillars_voip.Core.Types.Wire.{ProtoEnum}

-- The numbers of proto/signaling.proto.
abbrev nat_type_i32 : Proto.NatType → ℤ
nat_type_i32 nat_none = pos 0
nat_type_i32 nat_cone = pos 1
nat_type_i32 nat_symmetric_sequential = pos 2
nat_type_i32 nat_symmetric_pseudo = pos 3
nat_type_i32 nat_symmetric_random = pos 4

abbrev nat_type_try_from : ℤ → Option Proto.NatType
nat_type_try_from (pos zero) = some nat_none
nat_type_try_from (pos (suc zero)) = some nat_cone
nat_type_try_from (pos (suc (suc zero))) = some nat_symmetric_sequential
nat_type_try_from (pos (suc (suc (suc zero)))) = some nat_symmetric_pseudo
nat_type_try_from (pos (suc (suc (suc (suc zero))))) = some nat_symmetric_random
nat_type_try_from _ = none

pub nat_type_known : (e : Proto.NatType) → nat_type_try_from (nat_type_i32 e) ≡ some e
nat_type_known nat_none = refl
nat_type_known _ = refl

instance abbrev pub nat_types : ProtoEnum Proto.NatType
nat_types = record {
  as_i32 = nat_type_i32;
  try_from = nat_type_try_from;
  zero_value = nat_none;
  try_from-as_i32 = nat_type_known;
  try_from-zero = refl;
}

abbrev confidence_i32 : Proto.PredictionConfidence → ℤ
confidence_i32 sequential = pos 0
confidence_i32 pseudo_sequential = pos 1
confidence_i32 random = pos 2

abbrev confidence_try_from : ℤ → Option Proto.PredictionConfidence
confidence_try_from (pos zero) = some sequential
confidence_try_from (pos (suc zero)) = some pseudo_sequential
confidence_try_from (pos (suc (suc zero))) = some random
confidence_try_from _ = none

pub confidence_known :
    (e : Proto.PredictionConfidence) → confidence_try_from (confidence_i32 e) ≡ some e
confidence_known sequential = refl
confidence_known _ = refl

instance abbrev pub confidences : ProtoEnum Proto.PredictionConfidence
confidences = record {
  as_i32 = confidence_i32;
  try_from = confidence_try_from;
  zero_value = sequential;
  try_from-as_i32 = confidence_known;
  try_from-zero = refl;
}

abbrev method_try_from : ℤ → Option Proto.ProbeMethod
method_try_from (pos zero) = some quic_path_probing
method_try_from _ = none

pub method_known : (e : Proto.ProbeMethod) → method_try_from (pos 0) ≡ some e
method_known quic_path_probing = refl

instance abbrev pub methods : ProtoEnum Proto.ProbeMethod
methods = record {
  as_i32 = λ e. pos 0;
  try_from = method_try_from;
  zero_value = quic_path_probing;
  try_from-as_i32 = method_known;
  try_from-zero = refl;
}

abbrev media_i32 : Proto.MediaType → ℤ
media_i32 media_audio = pos 0
media_i32 media_video = pos 1
media_i32 media_screen = pos 2

abbrev media_try_from : ℤ → Option Proto.MediaType
media_try_from (pos zero) = some media_audio
media_try_from (pos (suc zero)) = some media_video
media_try_from (pos (suc (suc zero))) = some media_screen
media_try_from _ = none

pub media_known : (e : Proto.MediaType) → media_try_from (media_i32 e) ≡ some e
media_known media_audio = refl
media_known _ = refl

instance abbrev pub media : ProtoEnum Proto.MediaType
media = record {
  as_i32 = media_i32;
  try_from = media_try_from;
  zero_value = media_audio;
  try_from-as_i32 = media_known;
  try_from-zero = refl;
}

abbrev predicted : PortPredictionData
predicted = record {
  external_ip = "203.0.113.7";
  predicted_port_start = 40001;
  predicted_port_end = 40007;
  confidence = PredictionConfidence.sequential;
  base_port = 40003;
  delta_pattern = pos 1;
  probed_at = 1700000000;
  probe_method = ProbeMethod.quic_path_probing;
}

abbrev sequential_nat : NatInfo
sequential_nat = record { nat_type = NatType.symmetric_sequential; prediction = some predicted }
