-- ===== src/Tests/Pipelines.antt =====
-- The audio pipeline on small inputs.
use three_pillars_voip.Base.{ℕ, ◌≡◌, refl, some, [], ◌∷◌, ◌++◌, arith}
use three_pillars_voip.Base.Int.{pos}
use three_pillars_voip.Client.Audio.{Opus, voip_default}
use three_pillars_voip.Client.Moq.Datagram.{MoqDatagram}
use three_pillars_voip.Client.Moq.Datagram
use three_pillars_voip.Client.Pipeline.{AudioPipeline, buffered, buffer_incoming, drain_buffer}
use three_pillars_voip.Client.Pipeline.Buffering.{
  Ascending, held, keep_first, held-buffered, InOrder, buffer_incoming-drain_buffer-InOrder,
}
use three_pillars_voip.Client.Pipeline.Numbering.{Consecutive, sent, sent-Consecutive}
use three_pillars_voip.Client.Pipeline.Playback.{arrive, drain, played, played-OnlyListening}

-- A codec that says only that there was a frame.
abbrev codec : Opus
codec = record {
  Encoder = Unit;
  Decoder = Unit;
  new_encoder = λ rate channels application. some tt;
  new_decoder = λ rate channels. some tt;
  set_bitrate = λ b e. some e;
  set_inband_fec = λ b e. some e;
  set_dtx = λ b e. some e;
  set_complexity = λ n e. some e;
  encode = λ pcm room e. some (e, 1 ∷ []);
  decode = λ bytes room fec d. some (d, pos 0 ∷ []);
}

abbrev datagram : ℕ → ℕ → MoqDatagram
datagram sequence timestamp = Datagram.new 2 sequence timestamp (1 ∷ [])

abbrev pipeline : AudioPipeline codec
pipeline = record {
  encoder = record { encoder = tt; config = record voip_default { frame_size = 2 } };
  decoder = record { decoder = tt; config = voip_default };
  local_track_alias = 1;
  remote_track_alias = 2;
  sequence = 0;
  timestamp = 0;
  jitter_buffer = datagram 3 2880 ∷ datagram 5 4800 ∷ [];
  jitter_target_ms = 20;
  last_playback_ts = some 1920;
}

held-buffered_example :
    held (buffered (datagram 4 3840) pipeline.jitter_buffer)
    ≡ keep_first (datagram 4 3840) (held pipeline.jitter_buffer)
held-buffered_example = held-buffered (datagram 4 3840) pipeline.jitter_buffer

buffer_incoming-drain_buffer-InOrder_example :
    InOrder codec (buffer_incoming codec (datagram 4 3840) pipeline)
    × (let (q, out) = drain_buffer codec pipeline in
        InOrder codec q × (Ascending 0 out × (out ++ q.jitter_buffer ≡ pipeline.jitter_buffer)))
unfolding Datagram.new
buffer_incoming-drain_buffer-InOrder_example =
    buffer_incoming-drain_buffer-InOrder codec pipeline (datagram 4 3840)
      (omega arith, (omega arith, tt))

played-OnlyListening_example :
    played codec (arrive (datagram 4 3840) ∷ drain ∷ arrive (datagram 6 5760) ∷ drain ∷ []) pipeline
    ≡ []
unfolding Datagram.new
played-OnlyListening_example =
    played-OnlyListening codec 1920
      (arrive (datagram 4 3840) ∷ drain ∷ arrive (datagram 6 5760) ∷ drain ∷ []) pipeline
      (refl, (refl, (refl, (omega arith, (omega arith, tt))))) (omega arith, (omega arith, tt))

sent-Consecutive_example :
    Consecutive 2 0 0 (sent codec ((pos 1 ∷ pos 2 ∷ []) ∷ [] ∷ (pos 3 ∷ pos 4 ∷ []) ∷ []) pipeline)
sent-Consecutive_example =
    sent-Consecutive codec ((pos 1 ∷ pos 2 ∷ []) ∷ [] ∷ (pos 3 ∷ pos 4 ∷ []) ∷ []) pipeline
