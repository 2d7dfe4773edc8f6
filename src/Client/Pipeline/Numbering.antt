-- ===== src/Client/Pipeline/Numbering.antt =====
-- How the frames that are sent are numbered, crates/voip-client/src/pipeline.rs.
use three_pillars_voip.Base.{
  ℕ, ◌+◌, ◌%◌, ◌≡◌, refl, sym, subst, List, [], ◌∷◌, length, Bool-cases, Option-cases, inl, inr,
  ltb, u64_mod, ◌⊎◌,
}
use three_pillars_voip.Base.Bytes.{take}
use three_pillars_voip.Base.Int.{ℤ}
use three_pillars_voip.Client.Audio
use three_pillars_voip.Client.Audio.{
  Opus, OpusEncoder, encode_vec, samples_of, max_packet_size, encoder_result,
}
use three_pillars_voip.Client.Moq.Datagram.{MoqDatagram}
use three_pillars_voip.Client.Moq.Datagram
use three_pillars_voip.Client.Pipeline.{
  AudioPipeline, Result, ok, err, encode_frame, encoder_error, invalid_frame_size,
}

-- The datagrams that carry consecutive frames, from a sequence number and a timestamp on.
abbrev pub Consecutive : ℕ → ℕ → ℕ → List MoqDatagram → Type 0
Consecutive frame_size sequence timestamp [] = Unit {0}
Consecutive frame_size sequence timestamp (d ∷ ds) =
    (d.sequence ≡ sequence)
    × ((d.timestamp ≡ timestamp)
        × Consecutive frame_size ((sequence + 1) % u64_mod) ((timestamp + frame_size) % u64_mod) ds)

module _ (opus : Opus) where
  abbrev onto : Result MoqDatagram → List MoqDatagram → List MoqDatagram
  onto (ok d) ds = d ∷ ds
  onto (err e) ds = ds

  -- Frames that are captured one after another: what is sent of them.
  unfoldable pub sent : List (List ℤ) → AudioPipeline opus → List MoqDatagram
  sent [] p = []
  sent (pcm ∷ frames) p = let (q, r) = encode_frame opus pcm p in onto r (sent frames q)

  encode_vec-config :
      (pcm : List ℤ) (e : OpusEncoder opus)
      → ((x : Audio.AudioError) × (encode_vec opus pcm e ≡ Audio.err x))
        ⊎ ((f : OpusEncoder opus) × ((packet : List ℕ) × ((encode_vec opus pcm e
                  ≡ Audio.ok (f, packet))
                × (f.config ≡ e.config))))
  unfolding encode_vec
  encode_vec-config pcm e = elim (Bool-cases (ltb (length pcm) (samples_of e.config))) [
    | inl c ↦ inl (Audio.invalid_frame_size (length pcm), rw c refl)
    | inr c ↦
        let r = opus.encode (take (samples_of e.config) pcm) max_packet_size e.encoder in
        elim (Option-cases r) [
          | inl n ↦ inl (Audio.encoder_error, rw c (rw n refl))
          | inr ((encoder, packet), n) ↦
              inr (record e { encoder = encoder }, (packet, (rw c (rw n refl), refl)))
        ]
  ]

  -- One frame: either nothing is sent and the pipeline is as before, or it takes the next numbers.
  encode_frame_cases :
      (pcm : List ℤ) (p : AudioPipeline opus)
      → ((x : _) × (encode_frame opus pcm p ≡ (p, err x)))
        ⊎ ((q : AudioPipeline opus) × ((d : MoqDatagram) × ((encode_frame opus pcm p ≡ (q, ok d))
                × (((d.sequence ≡ p.sequence) × (d.timestamp ≡ p.timestamp))
                    × ((q.encoder.config ≡ p.encoder.config)
                        × ((q.sequence ≡ (p.sequence + 1) % u64_mod)
                            × (q.timestamp
                                ≡ (p.timestamp + p.encoder.config.frame_size) % u64_mod)))))))
  unfolding encode_frame Datagram.new
  encode_frame_cases pcm p =
      let fs = p.encoder.config.frame_size in
      elim (Bool-cases (ltb (length pcm) fs)) [
        | inl c ↦ inl (invalid_frame_size fs (length pcm), rw c refl)
        | inr c ↦ elim (encode_vec-config (take fs pcm) p.encoder) [
          | inl (x, e) ↦ inl (encoder_error x, rw c (rw e refl))
          | inr (f, (packet, (e, g))) ↦
              let q : AudioPipeline opus = record p {
                encoder = f;
                sequence = (p.sequence + 1) % u64_mod;
                timestamp = (p.timestamp + fs) % u64_mod;
              } in
              let d = Datagram.new p.local_track_alias p.sequence p.timestamp packet in
              inr (q, (d, (rw c (rw e refl), ((refl, refl), (g, (refl, refl))))))
        ]
      ]

  -- Frames that are refused leave no gap: those that are sent carry consecutive sequence numbers and
  -- timestamps one frame apart, from the pipeline's two counters on, each modulo 2^64.
  pub sent-Consecutive :
      (frames : List (List ℤ)) (p : AudioPipeline opus)
      → Consecutive p.encoder.config.frame_size p.sequence p.timestamp (sent frames p)
  unfolding sent
  sent-Consecutive [] p = tt
  sent-Consecutive (pcm ∷ frames) p = elim (encode_frame_cases pcm p) [
    | inl (x, e) ↦ rw e (sent-Consecutive frames p)
    | inr (q, (d, (e, ((s, t), (c, (s', t')))))) ↦
        let rest =
          subst (λ config. Consecutive config.frame_size q.sequence q.timestamp (sent frames q)) c
            (sent-Consecutive frames q) in
        rw e (s, (t, rw (sym t') (rw (sym s') rest)))
  ]
