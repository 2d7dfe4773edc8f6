-- ===== src/Client/NatProbe.antt =====
-- The classification of a NAT and the prediction of its next port, crates/voip-client/src/nat_probe.rs.
-- The clock is an argument, in seconds since 1970.
pub mod Sqrt
pub mod Prediction
pub mod Response
pub mod Cache
pub mod Path
use Prim.Native.Char.{code}
use three_pillars_voip.Base.{
  ℕ, zero, suc, ◌+◌, ◌-◌, ◌*◌, ◌/◌, ◌%◌, ◌^◌, Bool, true, false, ◌&&◌, ◌||◌, Option, none, some,
  List, [], ◌∷◌, String, length, map, ltb, leb, ◌==◌, if◌then◌else◌, u32_mod,
}
use three_pillars_voip.Base.Int.{ℤ, pos, negsuc, pos_part, neg_part, ◌+ℤ◌, ◌-ℤ◌, leb_ℤ, quot}
use three_pillars_voip.Core.Config.{VoipConfig}
use three_pillars_voip.Core.Types.NatType
use three_pillars_voip.Core.Types.NatType.{NatType}
use three_pillars_voip.Core.Types.PredictionConfidence.{
  PredictionConfidence, sequential, pseudo_sequential, random,
}
use three_pillars_voip.Core.Types.ProbeMethod
use three_pillars_voip.Core.Types.Nat.{NatInfo, PortPredictionData}
use Sqrt.{sqrt}

pub record NatProbeResult : Type 0 where
  pub server_ip : String
  pub local_port : ℕ
  pub external_ip : String
  pub external_port : ℕ
  pub timestamp_ms : ℕ
  pub rtt_ms : ℕ

abbrev pub contains_colon : String → Bool
contains_colon String.[] = false
contains_colon (String.◌∷◌ c rest) = (code c == b':') || contains_colon rest

-- `windows(2).all(|w| w[0] == w[1])`.
unfoldable pub all_same : List ℕ → Bool
all_same [] = true
all_same (p ∷ []) = true
all_same (p ∷ q ∷ ps) = p == q && all_same (q ∷ ps)

-- Ports are `u16`s, so no difference and no sum of differences leaves an `i32`.
unfoldable pub deltas : List ℕ → List ℤ
deltas [] = []
deltas (p ∷ []) = []
deltas (p ∷ q ∷ ps) = (pos q -ℤ pos p) ∷ deltas (q ∷ ps)

unfoldable pub sum : List ℤ → ℤ
sum [] = pos 0
sum (d ∷ ds) = d +ℤ sum ds

unfoldable pub sum_squares : ℤ → List ℤ → ℕ
sum_squares mean [] = 0
sum_squares mean (d ∷ ds) =
    let e = d -ℤ mean in let a = pos_part e + neg_part e in a * a + sum_squares mean ds

-- The root of an `f64`, cut to a whole number; the quotient may be cut first. At these sizes the
-- rounding of the quotient and of the root does not reach the next whole number.
unfoldable pub deviation : ℤ → List ℤ → ℕ
deviation mean ds = if ltb 1 (length ds) then sqrt (sum_squares mean ds / (length ds - 1)) else 0

-- `as u32` and `as i32`.
unfoldable pub to_u32 : ℤ → ℕ
to_u32 (pos n) = n % u32_mod
to_u32 (negsuc n) = u32_mod - 1 - n % u32_mod

unfoldable pub wrap_i32 : ℤ → ℤ
wrap_i32 z = let n = to_u32 z in if ltb n 2147483648 then pos n else pos n -ℤ pos u32_mod

abbrev max_ℤ : ℤ → ℤ → ℤ
max_ℤ a b = if leb_ℤ a b then b else a

abbrev min_ℤ : ℤ → ℤ → ℤ
min_ℤ a b = if leb_ℤ a b then a else b

-- The start and the end of the predicted range.
unfoldable pub predicted_range : ℤ → ℤ → ℕ × ℕ
unfolding to_u32 wrap_i32 ◌+ℤ◌ ◌-ℤ◌
predicted_range center margin = (
  to_u32 (max_ℤ (wrap_i32 (center -ℤ margin)) (pos 1024)),
  to_u32 (min_ℤ (wrap_i32 (center +ℤ margin)) (pos 65535)),
)

abbrev margin_of : VoipConfig → PredictionConfidence → ℤ
margin_of config sequential = wrap_i32 (pos config.prediction_margin_sequential)
margin_of config pseudo_sequential = wrap_i32 (pos config.prediction_margin_pseudo)
margin_of config random = pos 0

-- The estimate of new mappings is 1. `last` is the last probe result.
unfoldable pub compute_prediction :
    ℕ → NatProbeResult → ℤ → PredictionConfidence → VoipConfig → PortPredictionData
unfolding predicted_range
compute_prediction now_secs last avg_delta confidence config =
    let center = wrap_i32 (pos last.external_port +ℤ avg_delta) in
    let (start, end) = predicted_range center (margin_of config confidence) in
    record {
      external_ip = last.external_ip;
      predicted_port_start = start;
      predicted_port_end = end;
      confidence = confidence;
      base_port = last.external_port;
      delta_pattern = avg_delta;
      probed_at = now_secs;
      probe_method = ProbeMethod.quic_path_probing;
    }

abbrev pub last_of : NatProbeResult → List NatProbeResult → NatProbeResult
last_of r [] = r
last_of r (s ∷ rs) = last_of s rs

-- The kind of NAT by the deviation of its deltas.
unfoldable pub classify_deviation : ℕ → VoipConfig → NatType × PredictionConfidence
unfolding wrap_i32
classify_deviation variance config =
    let threshold = wrap_i32 (pos config.nat_delta_variance_threshold) in
    let triple = wrap_i32 (threshold +ℤ threshold +ℤ threshold) in
    if variance == 0 || leb_ℤ (pos variance) threshold
    then (NatType.symmetric_sequential, sequential)
    else if leb_ℤ (pos variance) triple
    then (NatType.symmetric_pseudo, pseudo_sequential)
    else (NatType.symmetric_random, random)

abbrev pub prediction_of :
    ℕ → NatProbeResult → ℤ → VoipConfig → NatType × PredictionConfidence → NatInfo
prediction_of now last avg config (nat_type, random) = record {
  nat_type = nat_type;
  prediction = none;
}
prediction_of now last avg config (nat_type, confidence) = record {
  nat_type = nat_type;
  prediction = some (compute_prediction now last avg confidence config);
}

unfoldable pub classify_symmetric : ℕ → NatProbeResult → List ℤ → VoipConfig → NatInfo
unfolding classify_deviation deviation compute_prediction
classify_symmetric now last ds config =
    let avg = quot (sum ds) (length ds) in
    prediction_of now last avg config (classify_deviation (deviation avg ds) config)

unfoldable pub classify_nat : ℕ → List NatProbeResult → VoipConfig → NatInfo
unfolding classify_symmetric all_same deltas
classify_nat now [] config = record { nat_type = NatType.none; prediction = none }
classify_nat now (r ∷ rs) config =
    let ports = map (λ (x : NatProbeResult). x.external_port) (r ∷ rs) in
    let ds = deltas ports in
    if contains_colon r.external_ip
    then record { nat_type = NatType.none; prediction = none }
    else if all_same ports
    then record { nat_type = NatType.cone; prediction = none }
    else if length ds == 0
    then record { nat_type = NatType.symmetric_random; prediction = none }
    else classify_symmetric now (last_of r rs) ds config
