-- ===== src/Dht/Enums.antt =====
-- The enumerations of crates/voip-dht/src/record.rs and their conversions from and to the generated
-- types.
use three_pillars_voip.Base.{◌≡◌, refl}
use three_pillars_voip.Core.Proto
use three_pillars_voip.Core.Proto.{
  nat_none, nat_cone, nat_symmetric_sequential, nat_symmetric_pseudo, nat_symmetric_random,
  media_audio, media_video, media_screen, peer_online, peer_offline, peer_in_call,
}

pub data NatType : Type 0 where
  none cone symmetric_sequential symmetric_pseudo symmetric_random : NatType

unfoldable pub nat_type_from : Proto.NatType → NatType
nat_type_from nat_none = none
nat_type_from nat_cone = cone
nat_type_from nat_symmetric_sequential = symmetric_sequential
nat_type_from nat_symmetric_pseudo = symmetric_pseudo
nat_type_from nat_symmetric_random = symmetric_random

unfoldable pub nat_type_into : NatType → Proto.NatType
nat_type_into none = nat_none
nat_type_into cone = nat_cone
nat_type_into symmetric_sequential = nat_symmetric_sequential
nat_type_into symmetric_pseudo = nat_symmetric_pseudo
nat_type_into symmetric_random = nat_symmetric_random

pub data PredictionConfidence : Type 0 where
  sequential pseudo_sequential random : PredictionConfidence

unfoldable pub confidence_from : Proto.PredictionConfidence → PredictionConfidence
confidence_from Proto.PredictionConfidence.sequential = sequential
confidence_from Proto.PredictionConfidence.pseudo_sequential = pseudo_sequential
confidence_from Proto.PredictionConfidence.random = random

unfoldable pub confidence_into : PredictionConfidence → Proto.PredictionConfidence
confidence_into sequential = Proto.PredictionConfidence.sequential
confidence_into pseudo_sequential = Proto.PredictionConfidence.pseudo_sequential
confidence_into random = Proto.PredictionConfidence.random

pub data MediaType : Type 0 where
  audio video screen : MediaType

unfoldable pub media_type_from : Proto.MediaType → MediaType
media_type_from media_audio = audio
media_type_from media_video = video
media_type_from media_screen = screen

unfoldable pub media_type_into : MediaType → Proto.MediaType
media_type_into audio = media_audio
media_type_into video = media_video
media_type_into screen = media_screen

pub data PeerStatus : Type 0 where
  online offline in_call : PeerStatus

unfoldable pub status_from : Proto.PeerStatus → PeerStatus
status_from peer_online = online
status_from peer_offline = offline
status_from peer_in_call = in_call

unfoldable pub status_into : PeerStatus → Proto.PeerStatus
status_into online = peer_online
status_into offline = peer_offline
status_into in_call = peer_in_call

pub nat_type_from-nat_type_into : (t : NatType) → nat_type_from (nat_type_into t) ≡ t
unfolding nat_type_from nat_type_into
nat_type_from-nat_type_into none = refl
nat_type_from-nat_type_into _ = refl

pub confidence_from-confidence_into :
    (c : PredictionConfidence) → confidence_from (confidence_into c) ≡ c
unfolding confidence_from confidence_into
confidence_from-confidence_into sequential = refl
confidence_from-confidence_into _ = refl

pub media_type_from-media_type_into : (t : MediaType) → media_type_from (media_type_into t) ≡ t
unfolding media_type_from media_type_into
media_type_from-media_type_into audio = refl
media_type_from-media_type_into _ = refl

pub status_from-status_into : (s : PeerStatus) → status_from (status_into s) ≡ s
unfolding status_from status_into
status_from-status_into online = refl
status_from-status_into _ = refl
