-- ===== src/Core/Types/Wire/RoundTrip.antt =====
-- A struct that goes into a message and comes back is the same struct
-- (crates/voip-core/src/types.rs), and reading a message never panics.
use mathlib.Core.Option
use three_pillars_voip.Base.{
  ◌≡◌, refl, Option, none, some, inl, inr, Option-cases, Returns, >>=-Returns, arith,
}
use three_pillars_voip.Base.Int.{ℤ}
use three_pillars_voip.Core.Proto
use three_pillars_voip.Core.Types.NatType
use three_pillars_voip.Core.Types.PredictionConfidence
use three_pillars_voip.Core.Types.ProbeMethod
use three_pillars_voip.Core.Types.MediaType
use three_pillars_voip.Core.Types.Nat.{PortPredictionData, NatInfo}
use three_pillars_voip.Core.Types.Track.{TrackInfo}
use three_pillars_voip.Core.Types.Wire.{
  ProtoEnum, i32_to_native_enum, ProtoPortPrediction, ProtoNatInfo, prediction_from_proto,
  prediction_to_proto, track_from_proto, track_to_proto, optional_from_proto, nat_info_from_proto,
  nat_info_to_proto,
}

module _ {E N : Type 0} ⦃p : ProtoEnum E⦄ (into : E → N) where
  -- A number that the generated code writes reads as its name.
  pub i32_to_native_enum-as_i32 : (e : E) → i32_to_native_enum into (p.as_i32 e) ≡ some (into e)
  unfolding i32_to_native_enum
  i32_to_native_enum-as_i32 e = ground (arith, p.try_from-as_i32 e)

  -- An unknown number reads as the first name, whatever the number.
  pub i32_to_native_enum_unknown :
      (value : ℤ)
      → p.try_from value ≡ none
      → i32_to_native_enum into value ≡ some (into p.zero_value)
  unfolding i32_to_native_enum
  i32_to_native_enum_unknown value h = ground (arith, p.try_from-zero)

  pub i32_to_native_enum_total : (value : ℤ) → Returns (i32_to_native_enum into value)
  unfolding i32_to_native_enum
  i32_to_native_enum_total value = elim (Option-cases (p.try_from value)) [
    | inl h ↦ (into p.zero_value, i32_to_native_enum_unknown value h)
    | inr (e, h) ↦ (into e, rw (h, i32_to_native_enum))
  ]

module _ ⦃c : ProtoEnum Proto.PredictionConfidence⦄ ⦃m : ProtoEnum Proto.ProbeMethod⦄ where
  pub prediction-round_trip :
      (d : PortPredictionData) → prediction_from_proto (prediction_to_proto d) ≡ some d
  unfolding prediction_from_proto prediction_to_proto
  prediction-round_trip d = simp (
    i32_to_native_enum-as_i32, PredictionConfidence.from_proto-to_proto,
    ProbeMethod.from_proto-to_proto,
  )

  pub prediction_from_proto_total : (p : ProtoPortPrediction) → Returns (prediction_from_proto p)
  unfolding prediction_from_proto
  prediction_from_proto_total p =
      >>=-Returns _ _ (i32_to_native_enum_total PredictionConfidence.from_proto p.confidence) λ c.
        >>=-Returns _ _ (i32_to_native_enum_total ProbeMethod.from_proto p.probe_method)
          λ m. (_, refl)

module _ ⦃k : ProtoEnum Proto.MediaType⦄ where
  -- A track announcement that is turned into its message and back is the same announcement.
  pub track-round_trip : (d : TrackInfo) → track_from_proto (track_to_proto d) ≡ some d
  unfolding track_from_proto track_to_proto
  track-round_trip d = simp (i32_to_native_enum-as_i32, MediaType.from_proto-to_proto)

module _ ⦃n : ProtoEnum Proto.NatType⦄ ⦃c : ProtoEnum Proto.PredictionConfidence⦄
    ⦃m : ProtoEnum Proto.ProbeMethod⦄ where
  optional-round_trip :
      (d : Option PortPredictionData)
      → optional_from_proto (Option.map prediction_to_proto d) ≡ some d
  unfolding optional_from_proto
  optional-round_trip none = refl
  optional-round_trip (some d) = rw (prediction-round_trip d)

  -- NAT information that is turned into its message and back is the same, its port prediction
  -- included, for any numbering of the enumerations that reads back what it writes.
  pub nat_info-round_trip : (d : NatInfo) → nat_info_from_proto (nat_info_to_proto d) ≡ some d
  unfolding nat_info_from_proto nat_info_to_proto
  nat_info-round_trip d =
      simp (i32_to_native_enum-as_i32, NatType.from_proto-to_proto, optional-round_trip)

  optional_from_proto_total : (o : Option ProtoPortPrediction) → Returns (optional_from_proto o)
  unfolding optional_from_proto
  optional_from_proto_total none = (none, refl)
  optional_from_proto_total (some p) = let (d, e) = prediction_from_proto_total p in (some d, rw e)

  -- Reading NAT information never panics, whatever numbers the message holds.
  pub nat_info_from_proto_total : (p : ProtoNatInfo) → Returns (nat_info_from_proto p)
  unfolding nat_info_from_proto
  nat_info_from_proto_total p =
      >>=-Returns _ _ (i32_to_native_enum_total NatType.from_proto p.nat_type)
        λ n. >>=-Returns _ _ (optional_from_proto_total p.prediction) λ d. (_, refl)
