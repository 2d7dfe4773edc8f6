-- ===== src/Client/NatProbe/Cache/Faithful.antt =====
-- What the cache remembers of a classification, crates/voip-client/src/nat_probe.rs.
use three_pillars_voip.Base.{
  ℕ, ◌/◌, ◌≡◌, refl, true, false, none, some, List, [], ◌∷◌, length, ◌==◌, if◌then◌else◌,
  Bool-cases, inl, inr, arith, ◌||◌,
}
use three_pillars_voip.Base.Int.{pos, ◌+ℤ◌, leb_ℤ}
use three_pillars_voip.Client.NatProbe.{
  NatProbeResult, all_same, deltas, last_of, classify_nat, contains_colon, classify_symmetric,
  classify_deviation, deviation, compute_prediction, wrap_i32, prediction_of,
}
use three_pillars_voip.Client.NatProbe.Cache.{
  build_cache, cached_to_nat_info, cached_prediction, ports_of, average,
}
use three_pillars_voip.Core.Config.{VoipConfig}
use three_pillars_voip.Core.Types.NatType.{NatType}
use three_pillars_voip.Core.Types.PredictionConfidence.{
  PredictionConfidence, sequential, pseudo_sequential, random,
}
use three_pillars_voip.Core.Types.Nat.{NatInfo, symmetric}

-- The same information, but for the time that the prediction carries.
abbrev pub dated : ℕ → NatInfo → NatInfo
dated secs i = record i {
  prediction = elim i.prediction [ none ↦ none | some p ↦ some (record p { probed_at = secs }) ];
}

-- The two margins that the code of the cache has of its own.
abbrev pub UsualMargins : VoipConfig → Type 0
UsualMargins config =
    (config.prediction_margin_sequential ≡ 3) × (config.prediction_margin_pseudo ≡ 8)

classify_deviation_cases :
    (v : ℕ) (config : VoipConfig)
    → (c : PredictionConfidence) × (classify_deviation v config ≡ (symmetric c, c))
unfolding classify_deviation
classify_deviation_cases v config =
    let threshold = wrap_i32 (pos config.nat_delta_variance_threshold) in
    elim (Bool-cases (v == 0 || leb_ℤ (pos v) threshold)) [
      | inl c ↦ (sequential, rw c refl)
      | inr c ↦ elim (Bool-cases (leb_ℤ (pos v) (wrap_i32 (threshold +ℤ threshold +ℤ threshold)))) [
        | inl d ↦ (pseudo_sequential, rw c (rw d refl))
        | inr d ↦ (random, rw c (rw d refl))
      ]
    ]

classify_nat-symmetric :
    (now : ℕ) (r s : NatProbeResult) (rs : List NatProbeResult) (config : VoipConfig)
    (k : PredictionConfidence)
    → contains_colon r.external_ip ≡ false
    → all_same (ports_of (r ∷ s ∷ rs)) ≡ false
    → let ds = deltas (ports_of (r ∷ s ∷ rs)) in
      classify_deviation (deviation (average ds) ds) config ≡ (symmetric k, k)
      → classify_nat now (r ∷ s ∷ rs) config
        ≡ prediction_of now (last_of r (s ∷ rs)) (average ds) config (symmetric k, k)
unfolding classify_nat classify_symmetric deltas
classify_nat-symmetric now r s rs config k v c e =
    let ds = deltas (ports_of (r ∷ s ∷ rs)) in
    let some : length ds == 0 ≡ false = ground arith in rw v (rw c (rw some (rw e refl)))

cached_symmetric :
    (now_secs now_ms : ℕ) (r s : NatProbeResult) (rs : List NatProbeResult) (config : VoipConfig)
    (k : PredictionConfidence)
    → contains_colon r.external_ip ≡ false
    → all_same (ports_of (r ∷ s ∷ rs)) ≡ false
    → UsualMargins config
    → let ds = deltas (ports_of (r ∷ s ∷ rs)) in
      classify_deviation (deviation (average ds) ds) config ≡ (symmetric k, k)
      → let info = classify_nat now_secs (r ∷ s ∷ rs) config in
        cached_to_nat_info (build_cache now_ms (r ∷ s ∷ rs) info config)
        ≡ dated ((last_of r (s ∷ rs)).timestamp_ms / 1000) info
unfolding cached_to_nat_info build_cache cached_prediction compute_prediction
cached_symmetric now_secs now_ms r s rs config sequential v c m e =
    rw (classify_nat-symmetric now_secs r s rs config sequential v c e) (rw c (rw m.0 refl))
cached_symmetric now_secs now_ms r s rs config pseudo_sequential v c m e =
    rw (classify_nat-symmetric now_secs r s rs config pseudo_sequential v c e) (rw c (rw m.1 refl))
cached_symmetric now_secs now_ms r s rs config random v c m e =
    rw (classify_nat-symmetric now_secs r s rs config random v c e) (rw c refl)

-- A classification that is cached and read back is the one that was made, with the time of the last
-- probe in place of the time of the analysis, where no address is one of IPv6 and the two margins are
-- those written into the cache's code.
pub cached_to_nat_info-build_cache :
    (now_secs now_ms : ℕ) (r : NatProbeResult) (rs : List NatProbeResult) (config : VoipConfig)
    → contains_colon r.external_ip ≡ false
    → UsualMargins config
    → let info = classify_nat now_secs (r ∷ rs) config in
      cached_to_nat_info (build_cache now_ms (r ∷ rs) info config)
      ≡ dated ((last_of r rs).timestamp_ms / 1000) info
unfolding cached_to_nat_info build_cache classify_nat deltas
cached_to_nat_info-build_cache now_secs now_ms r [] config v m = rw v refl
cached_to_nat_info-build_cache now_secs now_ms r (s ∷ rs) config v m =
    elim (Bool-cases (all_same (ports_of (r ∷ s ∷ rs)))) [
      | inl c ↦ rw v (rw c refl)
      | inr c ↦
          let ds = deltas (ports_of (r ∷ s ∷ rs)) in
          let (k, e) = classify_deviation_cases (deviation (average ds) ds) config in
          cached_symmetric now_secs now_ms r s rs config k v c m e
    ]

-- A peer on IPv6 has no translation, and is told so by the probe; from the cache the same peer is
-- told that it has one: a cone if its ports are equal, an unpredictable one otherwise.
pub cached_to_nat_info_v6 :
    (now_secs now_ms : ℕ) (r : NatProbeResult) (rs : List NatProbeResult) (config : VoipConfig)
    → contains_colon r.external_ip ≡ true
    → let info = classify_nat now_secs (r ∷ rs) config in
      (info.nat_type ≡ NatType.none)
      × ((cached_to_nat_info (build_cache now_ms (r ∷ rs) info config)).nat_type
          ≡ (if all_same (ports_of (r ∷ rs)) then NatType.cone else NatType.symmetric_random))
unfolding cached_to_nat_info build_cache classify_nat
cached_to_nat_info_v6 now_secs now_ms r rs config v =
    elim (Bool-cases (all_same (ports_of (r ∷ rs)))) [
      | inl c ↦ (rw v refl, rw v (rw c refl))
      | inr c ↦ (rw v refl, rw v (rw c refl))
    ]
