-- ===== src/Dht/Record/RoundTrip.antt =====
-- Records that are turned into their messages and back (crates/voip-dht/src/record.rs).
use mathlib.Core.Option
use three_pillars_voip.Base.{◌≡◌, refl, Option, none, some, List, [], ◌∷◌, map, arith}
use three_pillars_voip.Core.Types.Wire.{ProtoEnum}
use three_pillars_voip.Dht.Enums.{
  nat_type_from-nat_type_into, confidence_from-confidence_into, media_type_from-media_type_into,
  status_from-status_into,
}
use three_pillars_voip.Dht.Record.{
  Numbers, read_enum, PortPrediction, NatInfo, TrackAnnouncement, PeerRecord, ProxyRecord,
  prediction_to_proto, prediction_from_proto, nat_info_to_proto, nat_info_from_proto,
  track_to_proto, track_from_proto, to_proto_with_empty_sig, to_proto, from_proto,
  proxy_to_proto_with_empty_sig, proxy_to_proto, proxy_from_proto,
}

pub proxy-round_trip : (r : ProxyRecord) → proxy_from_proto (proxy_to_proto r) ≡ r
unfolding proxy_from_proto proxy_to_proto proxy_to_proto_with_empty_sig
proxy-round_trip r = refl

-- A number that the generated code writes reads as its name.
read_enum-as_i32 :
    {E N : Type 0} (p : ProtoEnum E) (from : E → N) (other : N) (e : E)
    → read_enum p from other (p.as_i32 e) ≡ from e
unfolding read_enum
read_enum-as_i32 p from other e = ground (arith, p.try_from-as_i32 e)

module _ (numbers : Numbers) where
  prediction-round_trip :
      (d : PortPrediction) → prediction_from_proto numbers (prediction_to_proto numbers d) ≡ d
  unfolding prediction_from_proto prediction_to_proto
  prediction-round_trip d = simp (read_enum-as_i32, confidence_from-confidence_into)

  optional_prediction-round_trip :
      (o : Option PortPrediction)
      → Option.map (prediction_from_proto numbers) (Option.map (prediction_to_proto numbers) o) ≡ o
  optional_prediction-round_trip none = refl
  optional_prediction-round_trip (some d) = rw (prediction-round_trip d)

  nat_info-round_trip :
      (d : NatInfo) → nat_info_from_proto numbers (nat_info_to_proto numbers d) ≡ d
  unfolding nat_info_from_proto nat_info_to_proto
  nat_info-round_trip d =
      simp (read_enum-as_i32, nat_type_from-nat_type_into, optional_prediction-round_trip)

  optional_nat_info-round_trip :
      (o : Option NatInfo)
      → Option.map (nat_info_from_proto numbers) (Option.map (nat_info_to_proto numbers) o) ≡ o
  optional_nat_info-round_trip none = refl
  optional_nat_info-round_trip (some d) = rw (nat_info-round_trip d)

  track-round_trip :
      (d : TrackAnnouncement) → track_from_proto numbers (track_to_proto numbers d) ≡ d
  unfolding track_from_proto track_to_proto
  track-round_trip d = simp (read_enum-as_i32, media_type_from-media_type_into)

  tracks-round_trip :
      (ds : List TrackAnnouncement)
      → map (track_from_proto numbers) (map (track_to_proto numbers) ds) ≡ ds
  tracks-round_trip [] = refl
  tracks-round_trip (d ∷ ds) = cc (track-round_trip d, tracks-round_trip ds)

  -- A peer record that is turned into its message and back is the same record, its NAT information, tracks
  -- and signature included.
  pub record-round_trip : (r : PeerRecord) → from_proto numbers (to_proto numbers r) ≡ r
  unfolding from_proto to_proto to_proto_with_empty_sig
  record-round_trip r =
      simp
        (optional_nat_info-round_trip, tracks-round_trip, read_enum-as_i32, status_from-status_into)
