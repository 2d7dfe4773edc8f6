-- ===== src/Core/Types/Track.antt =====
-- `TrackInfo` of crates/voip-core/src/types.rs, a MoQ track announcement.
use three_pillars_voip.Base.{ℕ, String}
use three_pillars_voip.Core.Types.MediaType.{MediaType}

pub record TrackInfo : Type 0 where
  pub track_namespace : String
  pub codec : String
  pub priority : ℕ
  pub media_type : MediaType
  pub bitrate_max : ℕ
  pub bitrate_min : ℕ
  pub frame_duration_ms : ℕ
