-- ===== src/Client/Audio.antt =====
-- The wrapper of the Opus codec, crates/voip-client/src/audio.rs. The codec is that of a third-party
-- crate: its encoder and decoder are parameters, a sample is an integer. The texts of errors are left out.
pub mod Frames
use three_pillars_voip.Base.{
  ℕ, ◌*◌, ◌/◌, Bool, true, false, Option, none, some, List, [], length, ltb, ◌==◌, if◌then◌else◌,
}
use three_pillars_voip.Base.Bytes.{take}
use three_pillars_voip.Base.Int.{ℤ, pos}

pub data Application : Type 0 where
  voip audio low_delay : Application

pub data Bitrate : Type 0 where
  bits : ℤ → Bitrate
  max_bitrate auto_bitrate : Bitrate

pub data Channels : Type 0 where
  mono stereo : Channels

pub record OpusConfig : Type 0 where
  pub sample_rate : ℕ
  pub channels : ℕ
  pub application : Application
  pub bitrate : Bitrate
  pub bitrate_min : ℤ
  pub frame_duration_ms : ℕ
  pub fec : Bool
  pub dtx : Bool
  pub complexity : ℕ
  pub frame_size : ℕ

abbrev pub voip_default : OpusConfig
voip_default = record {
  sample_rate = 48000;
  channels = 1;
  application = voip;
  bitrate = bits (pos 64000);
  bitrate_min = pos 6000;
  frame_duration_ms = 20;
  fec = true;
  dtx = true;
  complexity = 10;
  frame_size = 960;
}

abbrev pub max_packet_size : ℕ
max_packet_size = 160

abbrev pub opus_channels : OpusConfig → Channels
opus_channels c = if c.channels == 1 then mono else stereo

abbrev pub samples_of : OpusConfig → ℕ
samples_of c = c.frame_size * c.channels

pub data AudioError : Type 0 where
  encoder_error decoder_error : AudioError
  invalid_frame_size : ℕ → AudioError
  buffer_too_small : (need have : ℕ) → AudioError

pub data Result (A : Type 0) : Type 0 where
  ok : A → Result A
  err : AudioError → Result A

infixl 5 ◌>>=◌
abbrev pub ◌>>=◌ : {A B : Type 0} → Result A → (A → Result B) → Result B
ok a >>= f = f a
err e >>= f = err e

-- The crate: `none` is its error. Encoding gives at most as many bytes as there is room, decoding at
-- most as many samples.
pub record Opus : Type 1 where
  pub Encoder : Type 0
  pub Decoder : Type 0
  pub new_encoder : ℕ → Channels → Application → Option Encoder
  pub new_decoder : ℕ → Channels → Option Decoder
  pub set_bitrate : Bitrate → Encoder → Option Encoder
  pub set_inband_fec : Bool → Encoder → Option Encoder
  pub set_dtx : Bool → Encoder → Option Encoder
  pub set_complexity : ℕ → Encoder → Option Encoder
  pub encode : List ℤ → ℕ → Encoder → Option (Encoder × List ℕ)
  pub decode : List ℕ → ℕ → Bool → Decoder → Option (Decoder × List ℤ)

module _ (opus : Opus) where
  pub record OpusEncoder : Type 0 where
    pub encoder : opus.Encoder
    pub config : OpusConfig

  pub record OpusDecoder : Type 0 where
    pub decoder : opus.Decoder
    pub config : OpusConfig

  abbrev pub encoder_result : {A : Type 0} → Option A → Result A
  encoder_result none = err encoder_error
  encoder_result (some a) = ok a

  abbrev pub decoder_result : {A : Type 0} → Option A → Result A
  decoder_result none = err decoder_error
  decoder_result (some a) = ok a

  abbrev set_if : Bool → (opus.Encoder → Option opus.Encoder) → opus.Encoder → Option opus.Encoder
  set_if true set e = set e
  set_if false set e = some e

  -- The bitrate is set twice; the minimum never is.
  unfoldable pub apply_config : OpusConfig → opus.Encoder → Result opus.Encoder
  apply_config c e = do
    e1 ← encoder_result (opus.set_bitrate c.bitrate e)
    e2 ← encoder_result (opus.set_bitrate c.bitrate e1)
    e3 ← encoder_result (set_if c.fec (opus.set_inband_fec true) e2)
    e4 ← encoder_result (set_if c.dtx (opus.set_dtx true) e3)
    encoder_result (opus.set_complexity c.complexity e4)

  unfoldable pub new_opus_encoder : OpusConfig → Result OpusEncoder
  unfolding apply_config
  new_opus_encoder c = do
    e ← encoder_result (opus.new_encoder c.sample_rate (opus_channels c) c.application)
    e' ← apply_config c e
    ok (record { encoder = e'; config = c })

  unfoldable pub new_opus_decoder : OpusConfig → Result OpusDecoder
  new_opus_decoder c = do
    d ← decoder_result (opus.new_decoder c.sample_rate (opus_channels c))
    ok (record { decoder = d; config = c })

  -- The room is that of the output buffer.
  unfoldable pub encode : List ℤ → ℕ → OpusEncoder → Result (OpusEncoder × List ℕ)
  encode pcm room e =
      let expected_samples = samples_of e.config in
      if ltb (length pcm) expected_samples
      then err (invalid_frame_size (length pcm))
      else if ltb room max_packet_size
      then err (buffer_too_small max_packet_size room)
      else do
        (encoder, packet) ← encoder_result (opus.encode (take expected_samples pcm) room e.encoder)
        ok (record e { encoder = encoder }, packet)

  unfoldable pub encode_vec : List ℤ → OpusEncoder → Result (OpusEncoder × List ℕ)
  encode_vec pcm e =
      let expected_samples = samples_of e.config in
      if ltb (length pcm) expected_samples then err (invalid_frame_size (length pcm)) else do
        (encoder, packet) ←
            encoder_result (opus.encode (take expected_samples pcm) max_packet_size e.encoder)
        ok (record e { encoder = encoder }, packet)

  -- `none` is the panic of a division by 0.
  unfoldable pub packets_per_second : OpusEncoder → Option ℕ
  packets_per_second e =
      if e.config.frame_duration_ms == 0 then none else some (1000 / e.config.frame_duration_ms)

  unfoldable pub set_bitrate : Bitrate → OpusEncoder → Result OpusEncoder
  set_bitrate bitrate e = do
    encoder ← encoder_result (opus.set_bitrate bitrate e.encoder)
    ok (record e { encoder = encoder })

  unfoldable pub decode : List ℕ → ℕ → Bool → OpusDecoder → Result (OpusDecoder × List ℤ)
  decode opus_data room fec d =
      let max_samples = samples_of d.config in
      if ltb room max_samples then err (buffer_too_small max_samples room) else do
        (decoder, samples) ← decoder_result (opus.decode opus_data room fec d.decoder)
        ok (record d { decoder = decoder }, samples)

  unfoldable pub decode_vec : List ℕ → Bool → OpusDecoder → Result (OpusDecoder × List ℤ)
  unfolding decode
  decode_vec opus_data fec d = decode opus_data (samples_of d.config) fec d

  -- A lost packet is an empty one.
  unfoldable pub plc : ℕ → OpusDecoder → Result (OpusDecoder × List ℤ)
  plc room d =
      let max_samples = samples_of d.config in
      if ltb room max_samples then err (buffer_too_small max_samples room) else do
        (decoder, samples) ← decoder_result (opus.decode [] room false d.decoder)
        ok (record d { decoder = decoder }, samples)

  unfoldable pub plc_vec : OpusDecoder → Result (OpusDecoder × List ℤ)
  unfolding plc
  plc_vec d = plc (samples_of d.config) d

  pub record OpusCodec : Type 0 where
    pub encoder : OpusEncoder
    pub decoder : OpusDecoder

  unfoldable pub new_opus_codec : OpusConfig → Result OpusCodec
  unfolding new_opus_encoder new_opus_decoder
  new_opus_codec c = do
    encoder ← new_opus_encoder c
    decoder ← new_opus_decoder c
    ok (record { encoder = encoder; decoder = decoder })
