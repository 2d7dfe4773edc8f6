-- ===== src/Core/Types/Nat.antt =====
-- `PortPredictionData` and `NATInfo` of crates/voip-core/src/types.rs.
use three_pillars_voip.Base.{
  ℕ, ◌+◌, ◌-◌, ◌%◌, ◌≤◌, ◌<◌, ◌≡◌, Bool, true, false, ◌&&◌, Option, none, some, String, ltb, leb,
  u32_mod, arith,
}
use three_pillars_voip.Base.Int.{ℤ}
use three_pillars_voip.Core.Types.NatType.{NatType}
use three_pillars_voip.Core.Types.PredictionConfidence.{
  PredictionConfidence, sequential, pseudo_sequential, random, is_predictable,
}
use three_pillars_voip.Core.Types.ProbeMethod.{ProbeMethod}

pub record PortPredictionData : Type 0 where
  pub external_ip : String
  pub predicted_port_start : ℕ
  pub predicted_port_end : ℕ
  pub confidence : PredictionConfidence
  pub base_port : ℕ
  pub delta_pattern : ℤ
  pub probed_at : ℕ
  pub probe_method : ProbeMethod

-- The size of the predicted range; the last sum wraps at the width of a `u32`.
pub range_size : PortPredictionData → ℕ
range_size d = (d.predicted_port_end - d.predicted_port_start + 1) % u32_mod

unfoldable pub is_usable : PortPredictionData → Bool
unfolding is_predictable
is_usable d =
    is_predictable d.confidence
    && ltb 0 d.predicted_port_start
    && leb d.predicted_port_start d.predicted_port_end

pub record NatInfo : Type 0 where
  pub nat_type : NatType
  pub prediction : Option PortPredictionData

pub no_nat : NatInfo
no_nat = record { nat_type = NatType.none; prediction = none }

pub cone_nat : NatInfo
cone_nat = record { nat_type = NatType.cone; prediction = none }

abbrev pub symmetric : PredictionConfidence → NatType
symmetric sequential = NatType.symmetric_sequential
symmetric pseudo_sequential = NatType.symmetric_pseudo
symmetric random = NatType.symmetric_random

pub symmetric_with_prediction : PortPredictionData → NatInfo
symmetric_with_prediction d = record { nat_type = symmetric d.confidence; prediction = some d }

pub supports_direct : NatInfo → Bool
supports_direct i = elim i.nat_type [ NatType.symmetric_random ↦ false | _ ↦ true ]

-- A port lies in the predicted range.
abbrev pub InRange : PortPredictionData → ℕ → Type 0
InRange d port = (d.predicted_port_start ≤ port) × (port ≤ d.predicted_port_end)

-- NAT information with a prediction supports a direct connection exactly when the prediction's
-- confidence is predictable.
pub supports_direct-symmetric :
    (d : PortPredictionData)
    → supports_direct (symmetric_with_prediction d) ≡ is_predictable d.confidence
unfolding supports_direct symmetric_with_prediction is_predictable
supports_direct-symmetric d = ground arith

-- From the start of a usable prediction its size leads just behind its end, which is a `u32`.
pub range_size-usable :
    (d : PortPredictionData)
    → is_usable d ≡ true
    → d.predicted_port_end < u32_mod
    → d.predicted_port_start + range_size d ≡ d.predicted_port_end + 1
unfolding is_usable range_size
range_size-usable d u b = ground arith
