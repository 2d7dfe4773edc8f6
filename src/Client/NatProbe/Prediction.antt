-- ===== src/Client/NatProbe/Prediction.antt =====
-- What the classification of crates/voip-client/src/nat_probe.rs predicts.
use three_pillars_voip.Base.{
  ℕ, ◌+◌, ◌≤◌, ◌<◌, ◌≡◌, ◌↔◌, ◌⊎◌, refl, none, some, true, List, [], ◌∷◌, arith, inl, inr,
  Bool-cases, length, ◌==◌, ◌||◌, map,
}
use three_pillars_voip.Base.Int.{ℤ, pos, ◌+ℤ◌, ◌-ℤ◌, leb_ℤ, quot}
use three_pillars_voip.Core.Config.{VoipConfig}
use three_pillars_voip.Core.Types.NatType
use three_pillars_voip.Core.Types.PredictionConfidence.{is_predictable}
use three_pillars_voip.Core.Types.Nat.{NatInfo, PortPredictionData, symmetric}
use three_pillars_voip.Client.NatProbe.{
  NatProbeResult, sum, deviation, last_of, all_same, deltas, to_u32, wrap_i32, predicted_range,
  compute_prediction, contains_colon, prediction_of, classify_deviation, classify_symmetric,
  classify_nat,
}

-- A prediction comes with the symmetric NAT of its confidence, which is a predictable one; without a
-- prediction there is no NAT, a cone or a random one.
abbrev pub Coherent : NatInfo → Type 0
Coherent i =
    ((i.prediction ≡ none)
      × ((i.nat_type ≡ NatType.none)
          ⊎ (i.nat_type ≡ NatType.cone)
          ⊎ (i.nat_type ≡ NatType.symmetric_random)))
    ⊎ ((d : PortPredictionData) × (i.prediction ≡ some d)
        × (i.nat_type ≡ symmetric d.confidence)
        × (is_predictable d.confidence ≡ true))

prediction_of-Coherent :
    (variance now : ℕ) (last : NatProbeResult) (avg : ℤ) (config : VoipConfig)
    → Coherent (prediction_of now last avg config (classify_deviation variance config))
unfolding classify_deviation
prediction_of-Coherent variance now last avg config =
    let threshold = wrap_i32 (pos config.nat_delta_variance_threshold) in
    elim (Bool-cases (variance == 0 || leb_ℤ (pos variance) threshold)) [
      | inl e ↦ rw e (
          inr (
            _,
            refl,
            unfold compute_prediction in refl,
            unfold compute_prediction is_predictable in refl,
          ))
      | inr e ↦
          elim (Bool-cases
            (leb_ℤ (pos variance) (wrap_i32 (threshold +ℤ threshold +ℤ threshold)))) [
              | inl f ↦
                  rw (e, f)
                    (inr (
                      _,
                      refl,
                      unfold compute_prediction in refl,
                      unfold compute_prediction is_predictable in refl,
                    ))
              | inr f ↦ rw (e, f) (inl (refl, inr (inr refl)))
            ]
    ]

classify_symmetric-Coherent :
    (now : ℕ) (last : NatProbeResult) (ds : List ℤ) (config : VoipConfig)
    → Coherent (classify_symmetric now last ds config)
unfolding classify_symmetric
classify_symmetric-Coherent now last ds config =
    let avg = quot (sum ds) (length ds) in
    prediction_of-Coherent (deviation avg ds) now last avg config

-- Whatever the probes, the classification is coherent: a prediction comes with the symmetric NAT of
-- its confidence, which is a predictable one, and without one there is no NAT, a cone or a random one.
pub classify_nat-Coherent :
    (now : ℕ) (results : List NatProbeResult) (config : VoipConfig)
    → Coherent (classify_nat now results config)
unfolding classify_nat
classify_nat-Coherent now [] config = inl (refl, inl refl)
classify_nat-Coherent now (r ∷ rs) config =
    let ports = map (λ (x : NatProbeResult). x.external_port) (r ∷ rs) in
    elim (Bool-cases (contains_colon r.external_ip)) [
      | inl e ↦ rw e (inl (refl, inl refl))
      | inr e ↦ elim (Bool-cases (all_same ports)) [
        | inl f ↦ rw (e, f) (inl (refl, inr (inl refl)))
        | inr f ↦ elim (Bool-cases (length (deltas ports) == 0)) [
          | inl g ↦ rw (e, f, g) (inl (refl, inr (inr refl)))
          | inr g ↦
              rw (e, f, g) (classify_symmetric-Coherent now (last_of r rs) (deltas ports) config)
        ]
      ]
    ]

-- A port lies in the predicted range exactly when it is at most the margin away from the predicted
-- center and from 1024 to 65535, for a center that is not negative, while no sum leaves an `i32`.
pub predicted_range_iff :
    (center margin p : ℕ)
    → center + margin < 2147483648
    → let (start, end) = predicted_range (pos center) (pos margin) in
      ((start ≤ p) × (p ≤ end))
      ↔ ((1024 ≤ p) × (p < 65536) × (center ≤ p + margin) × (p ≤ center + margin))
unfolding predicted_range to_u32 wrap_i32 ◌+ℤ◌ ◌-ℤ◌
predicted_range_iff center margin p h = (λ x. ground arith, λ x. ground arith)
