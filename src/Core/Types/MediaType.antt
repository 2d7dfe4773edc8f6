-- ===== src/Core/Types/MediaType.antt =====
-- `MediaType` of crates/voip-core/src/types.rs and its conversions from and to the generated type.
use three_pillars_voip.Base.{◌≡◌, refl}
use three_pillars_voip.Core.Proto
use three_pillars_voip.Core.Proto.{media_audio, media_video, media_screen}

pub data MediaType : Type 0 where
  audio video screen : MediaType

pub from_proto : Proto.MediaType → MediaType
from_proto media_audio = audio
from_proto media_video = video
from_proto media_screen = screen

pub to_proto : MediaType → Proto.MediaType
to_proto audio = media_audio
to_proto video = media_video
to_proto screen = media_screen

pub from_proto-to_proto : (x : MediaType) → from_proto (to_proto x) ≡ x
unfolding from_proto to_proto
from_proto-to_proto audio = refl
from_proto-to_proto _ = refl

pub to_proto-from_proto : (p : Proto.MediaType) → to_proto (from_proto p) ≡ p
unfolding from_proto to_proto
to_proto-from_proto media_audio = refl
to_proto-from_proto _ = refl
