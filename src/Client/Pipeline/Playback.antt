-- ===== src/Client/Pipeline/Playback.antt =====
-- What is played when nothing is sent, crates/voip-client/src/pipeline.rs.
use three_pillars_voip.Base.{
  ℕ, ◌+◌, ◌<◌, ◌≡◌, refl, some, List, [], ◌∷◌, ◌++◌, arith, Bool-cases, inl, inr, ltb,
}
use three_pillars_voip.Client.Audio.{Opus}
use three_pillars_voip.Client.Moq.Datagram.{MoqDatagram}
use three_pillars_voip.Client.Pipeline.{
  AudioPipeline, has_sequence, insert_in_order, buffered, drain_ready, should_drain,
  buffer_incoming, drain_buffer, target_samples,
}

-- A receiver's run: datagrams that arrive, and times the buffer is drained.
pub data Event : Type 0 where
  arrive : MoqDatagram → Event
  drain : Event

-- Every datagram, of the buffer or of the events, is stamped less than 960 samples before `last_ts`.
abbrev pub AllRecent : ℕ → List MoqDatagram → Type 0
AllRecent last_ts [] = Unit {0}
AllRecent last_ts (d ∷ ds) = (last_ts < d.timestamp + 960) × AllRecent last_ts ds

abbrev pub ArrivalsRecent : ℕ → List Event → Type 0
ArrivalsRecent last_ts [] = Unit {0}
ArrivalsRecent last_ts (arrive d ∷ es) = (last_ts < d.timestamp + 960) × ArrivalsRecent last_ts es
ArrivalsRecent last_ts (drain ∷ es) = ArrivalsRecent last_ts es

insert_in_order-AllRecent :
    (last_ts : ℕ) (d : MoqDatagram) (ds : List MoqDatagram)
    → last_ts < d.timestamp + 960
    → AllRecent last_ts ds
    → AllRecent last_ts (insert_in_order d ds)
unfolding insert_in_order
insert_in_order-AllRecent last_ts d [] l h = (l, tt)
insert_in_order-AllRecent last_ts d (e ∷ es) l h = elim (Bool-cases (ltb d.sequence e.sequence)) [
  | inl c ↦ rw c (l, h)
  | inr c ↦ rw c (h.0, insert_in_order-AllRecent last_ts d es l h.1)
]

buffered-AllRecent :
    (last_ts : ℕ) (d : MoqDatagram) (ds : List MoqDatagram)
    → last_ts < d.timestamp + 960
    → AllRecent last_ts ds
    → AllRecent last_ts (buffered d ds)
unfolding buffered
buffered-AllRecent last_ts d ds l h = elim (Bool-cases (has_sequence d.sequence ds)) [
  | inl c ↦ rw c h
  | inr c ↦ rw c (insert_in_order-AllRecent last_ts d ds l h)
]

-- A clock that stands at 0 makes nothing late.
drain_ready_recent :
    (last_ts : ℕ) (ds : List MoqDatagram)
    → AllRecent last_ts ds
    → drain_ready 960 0 (some last_ts) ds ≡ ([], ds)
unfolding drain_ready should_drain
drain_ready_recent last_ts [] h = refl
drain_ready_recent last_ts (d ∷ ds) h = ground (arith, h.0)

module _ (opus : Opus) where
  abbrev pub step : Event → AudioPipeline opus → AudioPipeline opus × List MoqDatagram
  step (arrive d) p = (buffer_incoming opus d p, [])
  step drain p = drain_buffer opus p

  -- All that a run plays.
  unfoldable pub played : List Event → AudioPipeline opus → List MoqDatagram
  played [] p = []
  played (e ∷ es) p = let (q, out) = step e p in out ++ played es q

  -- Nothing was sent yet, and something was played.
  abbrev pub OnlyListening : ℕ → AudioPipeline opus → Type 0
  OnlyListening last_ts p =
      (p.timestamp ≡ 0)
      × ((p.jitter_target_ms ≡ 20)
          × ((p.last_playback_ts ≡ some last_ts) × AllRecent last_ts p.jitter_buffer))

  drain_buffer-OnlyListening :
      (last_ts : ℕ) (p : AudioPipeline opus)
      → OnlyListening last_ts p
      → drain_buffer opus p ≡ (p, [])
  unfolding drain_buffer
  drain_buffer-OnlyListening last_ts p h =
      let e : drain_ready (target_samples opus p) p.timestamp p.last_playback_ts p.jitter_buffer
          ≡ ([], p.jitter_buffer) =
        rw h.1.0 (rw h.0 (rw h.1.1.0 (drain_ready_recent last_ts p.jitter_buffer h.1.1.1))) in
      rw e refl

  -- Playback waits for the microphone: on a pipeline with the target of 20 ms that has sent no
  -- frame and has played one, stamped `last_ts`, whatever it holds and whatever arrives is never
  -- played, however often the buffer is drained, if it is stamped less than 960 samples before
  -- `last_ts` or later.
  pub played-OnlyListening :
      (last_ts : ℕ) (es : List Event) (p : AudioPipeline opus)
      → OnlyListening last_ts p
      → ArrivalsRecent last_ts es
      → played es p ≡ []
  unfolding played buffer_incoming
  played-OnlyListening last_ts [] p h a = refl
  played-OnlyListening last_ts (arrive d ∷ es) p h a =
      played-OnlyListening last_ts es (buffer_incoming opus d p)
        (h.0, (h.1.0, (h.1.1.0, buffered-AllRecent last_ts d p.jitter_buffer a.0 h.1.1.1))) a.1
  played-OnlyListening last_ts (drain ∷ es) p h a =
      rw (drain_buffer-OnlyListening last_ts p h) (played-OnlyListening last_ts es p h a)
