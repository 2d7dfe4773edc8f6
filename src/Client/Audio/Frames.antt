-- ===== src/Client/Audio/Frames.antt =====
-- What the wrapper of crates/voip-client/src/audio.rs hands to the codec.
use three_pillars_voip.Base.{ℕ, ◌≡◌, refl, false, []}
use three_pillars_voip.Base.Int.{ℤ}
use three_pillars_voip.Client.Audio.{
  Opus, OpusConfig, OpusDecoder, decode, decode_vec, plc, plc_vec, apply_config,
}

module _ (opus : Opus) where
  -- The minimum bitrate of a configuration has no effect: an encoder is built alike whatever it is, but for
  -- the configuration it keeps.
  pub apply_config-bitrate_min :
      (c : OpusConfig) (bitrate_min : ℤ) (e : opus.Encoder)
      → apply_config opus (record c { bitrate_min = bitrate_min }) e ≡ apply_config opus c e
  unfolding apply_config
  apply_config-bitrate_min c bitrate_min e = refl

  -- The concealment of a lost packet is the decoding of an empty one without error correction, with a
  -- buffer or without.
  pub plc-decode :
      (room : ℕ) (d : OpusDecoder opus)
      → (plc opus room d ≡ decode opus [] room false d)
        × (plc_vec opus d ≡ decode_vec opus [] false d)
  unfolding plc plc_vec decode decode_vec
  plc-decode room d = (refl, refl)
