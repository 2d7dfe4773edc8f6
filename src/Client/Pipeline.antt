-- ===== src/Client/Pipeline.antt =====
-- The audio pipeline, crates/voip-client/src/pipeline.rs: frames that are sent, frames that are
-- played, and the jitter buffer between. Opus is the interface of Client/Audio.
-- The configuration that the pipeline holds is only handed out, and left out.
pub mod Buffering
pub mod Playback
pub mod Numbering
use three_pillars_voip.Base.{
  ℕ, ◌+◌, ◌-◌, ◌*◌, ◌/◌, ◌%◌, Bool, true, false, ◌&&◌, ◌||◌, Option, none, some, List, [], ◌∷◌,
  length, ltb, leb, ◌==◌, if◌then◌else◌, u64_mod,
}
use three_pillars_voip.Base.Bytes.{take}
use three_pillars_voip.Base.Int.{ℤ}
use three_pillars_voip.Client.Audio
use three_pillars_voip.Client.Audio.{
  Opus, AudioError, OpusEncoder, OpusDecoder, voip_default, new_opus_encoder, new_opus_decoder,
  encode_vec, decode_vec, plc_vec,
}
use three_pillars_voip.Client.Moq.Datagram.{MoqDatagram}
use three_pillars_voip.Client.Moq.Datagram

-- The errors that the pipeline returns.
pub data PipelineError : Type 0 where
  encoder_error decoder_error : AudioError → PipelineError
  invalid_frame_size : (expected got : ℕ) → PipelineError

pub data Result (A : Type 0) : Type 0 where
  ok : A → Result A
  err : PipelineError → Result A

-- The jitter buffer.
abbrev pub has_sequence : ℕ → List MoqDatagram → Bool
has_sequence sequence [] = false
has_sequence sequence (d ∷ ds) = (d.sequence == sequence) || has_sequence sequence ds

-- Before the first datagram of a greater sequence number, or at the end.
unfoldable pub insert_in_order : MoqDatagram → List MoqDatagram → List MoqDatagram
insert_in_order datagram [] = datagram ∷ []
insert_in_order datagram (d ∷ ds) =
    let rest = insert_in_order datagram ds in
    if ltb datagram.sequence d.sequence then datagram ∷ d ∷ ds else d ∷ rest

unfoldable pub buffered : MoqDatagram → List MoqDatagram → List MoqDatagram
buffered datagram buffer =
    if has_sequence datagram.sequence buffer then buffer else insert_in_order datagram buffer

abbrev pub sample_rate : ℕ
sample_rate = 48000

-- Whether the datagram in front goes, with how many there are.
unfoldable pub should_drain : ℕ → ℕ → Option ℕ → MoqDatagram → ℕ → Bool
should_drain target now_ts none front held = leb 2 held
should_drain target now_ts (some last_ts) front held =
    leb target (last_ts - front.timestamp) || leb (target * 2) (now_ts - front.timestamp)

-- The loop: those that go, and those that stay.
unfoldable pub drain_ready :
    ℕ → ℕ → Option ℕ → List MoqDatagram → List MoqDatagram × List MoqDatagram
drain_ready target now_ts last_ts [] = ([], [])
drain_ready target now_ts last_ts (d ∷ ds) =
    let (ready, left) = drain_ready target now_ts last_ts ds in
    if should_drain target now_ts last_ts d (length (d ∷ ds))
    then (d ∷ ready, left)
    else ([], d ∷ ds)

abbrev pub last_timestamp : Option ℕ → List MoqDatagram → Option ℕ
last_timestamp before [] = before
last_timestamp before (d ∷ ds) = last_timestamp (some d.timestamp) ds

module _ (opus : Opus) where
  pub record AudioPipeline : Type 0 where
    pub encoder : OpusEncoder opus
    pub decoder : OpusDecoder opus
    pub local_track_alias : ℕ
    pub remote_track_alias : ℕ
    pub sequence : ℕ
    pub timestamp : ℕ
    pub jitter_buffer : List MoqDatagram
    pub jitter_target_ms : ℕ
    pub last_playback_ts : Option ℕ

  unfoldable pub new : ℕ → ℕ → Result AudioPipeline
  new local_alias remote_alias = elim (new_opus_encoder opus voip_default) [
    | Audio.err e ↦ err (encoder_error e)
    | Audio.ok encoder ↦ elim (new_opus_decoder opus voip_default) [
      | Audio.err e ↦ err (decoder_error e)
      | Audio.ok decoder ↦ ok (record {
        encoder = encoder;
        decoder = decoder;
        local_track_alias = local_alias;
        remote_track_alias = remote_alias;
        sequence = 0;
        timestamp = 0;
        jitter_buffer = [];
        jitter_target_ms = 20;
        last_playback_ts = none;
      })
    ]
  ]

  -- A frame that is sent takes the two counters, which wrap.
  unfoldable pub encode_frame : List ℤ → AudioPipeline → AudioPipeline × Result MoqDatagram
  encode_frame pcm p =
      let frame_size = p.encoder.config.frame_size in
      if ltb (length pcm) frame_size
      then (p, err (invalid_frame_size frame_size (length pcm)))
      else elim (encode_vec opus (take frame_size pcm) p.encoder) [
        | Audio.err e ↦ (p, err (encoder_error e))
        | Audio.ok (encoder, opus_data) ↦ (
          record p {
            encoder = encoder;
            sequence = (p.sequence + 1) % u64_mod;
            timestamp = (p.timestamp + frame_size) % u64_mod;
          },
          ok (Datagram.new p.local_track_alias p.sequence p.timestamp opus_data),
        )
      ]

  abbrev pub decoded :
      AudioPipeline → Audio.Result (OpusDecoder opus × List ℤ) → AudioPipeline × Result (List ℤ)
  decoded p (Audio.err e) = (p, err (decoder_error e))
  decoded p (Audio.ok (decoder, pcm)) = (record p { decoder = decoder }, ok pcm)

  -- Another track's datagram is only warned of.
  pub decode_frame : MoqDatagram → AudioPipeline → AudioPipeline × Result (List ℤ)
  decode_frame datagram p = decoded p (decode_vec opus datagram.payload false p.decoder)

  pub decode_with_fec : MoqDatagram → AudioPipeline → AudioPipeline × Result (List ℤ)
  decode_with_fec datagram p = decoded p (decode_vec opus datagram.payload true p.decoder)

  pub plc : AudioPipeline → AudioPipeline × Result (List ℤ)
  plc p = decoded p (plc_vec opus p.decoder)

  unfoldable pub buffer_incoming : MoqDatagram → AudioPipeline → AudioPipeline
  unfolding buffered
  buffer_incoming datagram p = record p { jitter_buffer = buffered datagram p.jitter_buffer }

  abbrev pub target_samples : AudioPipeline → ℕ
  target_samples p = sample_rate * p.jitter_target_ms % u64_mod / 1000

  unfoldable pub drain_buffer : AudioPipeline → AudioPipeline × List MoqDatagram
  unfolding drain_ready
  drain_buffer p =
      let (ready, left) =
        drain_ready (target_samples p) p.timestamp p.last_playback_ts p.jitter_buffer in
      (
        record p {
          jitter_buffer = left;
          last_playback_ts = last_timestamp p.last_playback_ts ready;
        },
        ready,
      )
