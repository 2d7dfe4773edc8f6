-- ===== src/Client/NatProbe/Cache.antt =====
-- The prober and its cache, `NATProber` and `NATProbeCache` of crates/voip-client/src/nat_probe.rs.
-- The clock is an argument, and so is what probing one path gives.
pub mod Faithful
pub mod Locked
pub mod Refresh
use three_pillars_voip.Base.{
  ℕ, zero, suc, ◌+◌, ◌-◌, ◌*◌, ◌/◌, ◌%◌, Bool, true, false, ◌||◌, Option, none, some, List, [], ◌∷◌,
  String, length, map, ltb, leb, ◌==◌, if◌then◌else◌, u32_mod,
}
use three_pillars_voip.Base.Bytes.{take}
use three_pillars_voip.Base.Int.{ℤ, pos, pos_part, neg_part, ◌+ℤ◌, ◌-ℤ◌, leb_ℤ, quot}
use three_pillars_voip.Client.NatProbe.{
  NatProbeResult, all_same, deltas, sum, deviation, predicted_range, wrap_i32, last_of,
  classify_nat,
}
use three_pillars_voip.Core.Config.{VoipConfig}
use three_pillars_voip.Core.Types.NatType
use three_pillars_voip.Core.Types.NatType.{NatType}
use three_pillars_voip.Core.Types.PredictionConfidence.{
  PredictionConfidence, sequential, pseudo_sequential, random,
}
use three_pillars_voip.Core.Types.ProbeMethod
use three_pillars_voip.Core.Types.Nat.{NatInfo, PortPredictionData, symmetric}

pub record NatProbeCache : Type 0 where
  pub probes : List NatProbeResult
  pub average_delta : ℤ
  pub delta_variance : ℕ
  pub confidence : PredictionConfidence
  pub cache_timestamp : ℕ
  pub cache_ttl_seconds : ℕ

pub data NatProbeError : Type 0 where
  not_connected : NatProbeError
  probe_timeout migration_failed : (ip : String) → NatProbeError
  insufficient_probes : (got need : ℕ) → NatProbeError

pub record NatProber : Type 0 where
  pub config : VoipConfig
  pub cache : Option NatProbeCache
  pub udp_blocked : Bool

unfoldable pub new : VoipConfig → NatProber
new config = record { config = config; cache = none; udp_blocked = false }

pub set_udp_blocked : Bool → NatProber → NatProber
set_udp_blocked blocked p = record p { udp_blocked = blocked }

abbrev pub ports_of : List NatProbeResult → List ℕ
ports_of results = map (λ (r : NatProbeResult). r.external_port) results

-- Without a difference the average is 0.
abbrev pub average : List ℤ → ℤ
average [] = pos 0
average (d ∷ ds) = quot (sum (d ∷ ds)) (length (d ∷ ds))

abbrev pub confidence_of : Option PortPredictionData → PredictionConfidence
confidence_of none = random
confidence_of (some p) = p.confidence

unfoldable pub build_cache : ℕ → List NatProbeResult → NatInfo → VoipConfig → NatProbeCache
build_cache now_ms results nat_info config =
    let ds = deltas (ports_of results) in
    record {
      probes = results;
      average_delta = average ds;
      delta_variance = deviation (average ds) ds;
      confidence = confidence_of nat_info.prediction;
      cache_timestamp = now_ms;
      cache_ttl_seconds = config.nat_cache_ttl_secs % u32_mod;
    }

-- The margins are written into the code.
abbrev pub cached_margin : PredictionConfidence → ℤ
cached_margin sequential = pos 3
cached_margin pseudo_sequential = pos 8
cached_margin random = pos 0

unfoldable pub cached_prediction : NatProbeCache → NatProbeResult → PortPredictionData
cached_prediction cache l =
    let center = wrap_i32 (pos l.external_port +ℤ cache.average_delta) in
    let (start, end) = predicted_range center (cached_margin cache.confidence) in
    record {
      external_ip = l.external_ip;
      predicted_port_start = start;
      predicted_port_end = end;
      confidence = cache.confidence;
      base_port = l.external_port;
      delta_pattern = cache.average_delta;
      probed_at = l.timestamp_ms / 1000;
      probe_method = ProbeMethod.quic_path_probing;
    }

abbrev pub predict_last : NatProbeCache → List NatProbeResult → Option PortPredictionData
predict_last cache [] = none
predict_last cache (r ∷ rs) = some (cached_prediction cache (last_of r rs))

abbrev pub is_random : PredictionConfidence → Bool
is_random random = true
is_random _ = false

unfoldable pub cached_to_nat_info : NatProbeCache → NatInfo
cached_to_nat_info cache =
    if all_same (ports_of cache.probes)
    then record { nat_type = NatType.cone; prediction = none }
    else if is_random cache.confidence
    then record { nat_type = NatType.symmetric_random; prediction = none }
    else record {
      nat_type = symmetric cache.confidence;
      prediction = predict_last cache cache.probes;
    }

abbrev valid_info : ℕ → NatProbeCache → Option NatInfo
valid_info now_ms c =
    if ltb (now_ms - c.cache_timestamp) (c.cache_ttl_seconds * 1000)
    then some (cached_to_nat_info c)
    else none

unfoldable pub cached_nat_info : ℕ → NatProber → Option NatInfo
unfolding cached_to_nat_info
cached_nat_info now_ms p = elim p.cache [ none ↦ none | some c ↦ valid_info now_ms c ]

unfoldable pub has_valid_cache : ℕ → NatProber → Bool
has_valid_cache now_ms p = elim (cached_nat_info now_ms p) [ none ↦ false | some i ↦ true ]

unfoldable pub invalidate_cache : NatProber → NatProber
invalidate_cache p = record p { cache = none }

pub data Probed : Type 0 where
  ok : NatInfo → Probed
  err : NatProbeError → Probed

module _ (probe_single_path : String → ℕ → Option NatProbeResult) where
  -- Those that answered, in the order of the addresses, which are numbered.
  unfoldable pub gather : ℕ → List String → List NatProbeResult
  gather i [] = []
  gather i (ip ∷ ips) =
      let rest = gather (i + 1) ips in
      elim (probe_single_path ip i) [ none ↦ rest | some r ↦ r ∷ rest ]

  abbrev concluded : (now_secs now_ms : ℕ) → List NatProbeResult → NatProber → NatProber × Probed
  concluded now_secs now_ms results p =
      let nat_info = classify_nat now_secs results p.config in
      (record p { cache = some (build_cache now_ms results nat_info p.config) }, ok nat_info)

  unfoldable pub probe : (now_secs now_ms : ℕ) → NatProber → NatProber × Probed
  unfolding gather
  probe now_secs now_ms p =
      let ips = take p.config.path_probe_count p.config.signaling_server_ips in
      let results = gather 0 ips in
      if length ips == 0
      then (p, err not_connected)
      else if ltb (length results) 3
      then (p, err (insufficient_probes (length results) 3))
      else concluded now_secs now_ms results p

abbrev distance : ℤ → ℤ → ℕ
distance a b = let d = a -ℤ b in pos_part d + neg_part d

abbrev pub consistent : List NatProbeResult → NatProbeCache → VoipConfig → Bool
consistent results cache config = elim (deltas (ports_of results)) [
  | [] ↦ false
  | d ∷ ds ↦
      leb_ℤ (pos (distance (average (d ∷ ds)) cache.average_delta))
        (wrap_i32 (pos config.nat_delta_variance_threshold))
]
