-- ===== src/Client/Pipeline/Buffering.antt =====
-- What the jitter buffer holds, crates/voip-client/src/pipeline.rs.
use mathlib.Core.Path.{fun_ext, subst, sym}
use three_pillars_voip.Base.{
  ℕ, ◌+◌, ◌≤◌, ◌≡◌, refl, false, Option, none, some, List, [], ◌∷◌, ◌++◌, arith, ltb, ◌==◌,
  if◌then◌else◌, Bool-cases, Option-cases, inl, inr,
}
use three_pillars_voip.Client.Audio.{Opus}
use three_pillars_voip.Client.Moq.Datagram.{MoqDatagram}
use three_pillars_voip.Client.Pipeline.{
  AudioPipeline, has_sequence, insert_in_order, buffered, drain_ready, buffer_incoming,
  drain_buffer, target_samples,
}

-- Sequence numbers from `low` on, each below the next.
abbrev pub Ascending : ℕ → List MoqDatagram → Type 0
Ascending low [] = Unit {0}
Ascending low (d ∷ ds) = (low ≤ d.sequence) × Ascending (d.sequence + 1) ds

insert_in_order-Ascending :
    (low : ℕ) (d : MoqDatagram) (ds : List MoqDatagram)
    → low ≤ d.sequence
    → has_sequence d.sequence ds ≡ false
    → Ascending low ds
    → Ascending low (insert_in_order d ds)
unfolding insert_in_order
insert_in_order-Ascending low d [] l n h = (l, tt)
insert_in_order-Ascending low d (e ∷ es) l n h = elim (Bool-cases (ltb d.sequence e.sequence)) [
  | inl c ↦ rw c (l, (ground arith, h.1))
  | inr c ↦
      rw c (h.0, insert_in_order-Ascending (e.sequence + 1) d es (ground arith) (ground arith) h.1)
]

buffered-Ascending :
    (d : MoqDatagram) (ds : List MoqDatagram) → Ascending 0 ds → Ascending 0 (buffered d ds)
unfolding buffered
buffered-Ascending d ds h = elim (Bool-cases (has_sequence d.sequence ds)) [
  | inl c ↦ rw c h
  | inr c ↦ rw c (insert_in_order-Ascending 0 d ds (omega arith) c h)
]

-- The abstract buffer: the datagram that is held for a sequence number, if one is.
unfoldable pub held : List MoqDatagram → ℕ → Option MoqDatagram
held [] n = none
held (d ∷ ds) n = let rest = held ds n in if d.sequence == n then some d else rest

-- Written only where nothing is.
abbrev pub keep_first : MoqDatagram → (ℕ → Option MoqDatagram) → ℕ → Option MoqDatagram
keep_first d m n = elim (m n) [ some e ↦ some e | none ↦ if d.sequence == n then some d else none ]

held-has_sequence : (ds : List MoqDatagram) (n : ℕ) → has_sequence n ds ≡ false → held ds n ≡ none
unfolding held
held-has_sequence [] n h = refl
held-has_sequence (d ∷ ds) n h = ground (arith, held-has_sequence ds n)

held-none : (ds : List MoqDatagram) (n : ℕ) → held ds n ≡ none → has_sequence n ds ≡ false
unfolding held
held-none [] n h = refl
held-none (d ∷ ds) n h = ground (arith, held-none ds n)

held-insert_in_order :
    (d : MoqDatagram) (ds : List MoqDatagram) (n : ℕ)
    → has_sequence d.sequence ds ≡ false
    → held (insert_in_order d ds) n ≡ (if d.sequence == n then some d else held ds n)
unfolding held insert_in_order
held-insert_in_order d [] n h = refl
held-insert_in_order d (e ∷ es) n h = ground (arith, held-insert_in_order d es n)

held-buffered_own :
    (d : MoqDatagram) (ds : List MoqDatagram)
    → held (buffered d ds) d.sequence ≡ keep_first d (held ds) d.sequence
unfolding buffered
held-buffered_own d ds = elim (Option-cases (held ds d.sequence)) [
  | inl e ↦ ground (arith, e, held-none ds d.sequence e, held-insert_in_order d ds d.sequence)
  | inr (a, e) ↦ elim (Bool-cases (has_sequence d.sequence ds)) [
    | inl c ↦ ground (arith, e)
    | inr c ↦ ground (arith, e, held-has_sequence ds d.sequence c)
  ]
]

held-buffered_at :
    (d : MoqDatagram) (ds : List MoqDatagram) (n : ℕ)
    → held (buffered d ds) n ≡ keep_first d (held ds) n
unfolding buffered
held-buffered_at d ds n = elim (Bool-cases (d.sequence == n)) [
  | inl c ↦
      subst (λ k. held (buffered d ds) k ≡ keep_first d (held ds) k) (ground arith)
        (held-buffered_own d ds)
  | inr c ↦
      let inserted = held-insert_in_order d ds n in
      elim (Option-cases (held ds n)) [
        | inl e ↦ ground (arith, e, inserted)
        | inr (a, e) ↦ ground (arith, e, inserted)
      ]
]

-- Receiving a datagram is the abstract update: the first of a sequence number is kept.
pub held-buffered :
    (d : MoqDatagram) (ds : List MoqDatagram) → held (buffered d ds) ≡ keep_first d (held ds)
held-buffered d ds = fun_ext λ n. held-buffered_at d ds n

drain_ready-++ :
    (target now_ts : ℕ) (last_ts : Option ℕ) (ds : List MoqDatagram)
    → let (ready, left) = drain_ready target now_ts last_ts ds in ready ++ left ≡ ds
unfolding drain_ready
drain_ready-++ target now_ts last_ts [] = refl
drain_ready-++ target now_ts last_ts (d ∷ ds) =
    ground (arith, drain_ready-++ target now_ts last_ts ds)

Ascending-lower :
    (low high : ℕ) (ds : List MoqDatagram) → low ≤ high → Ascending high ds → Ascending low ds
Ascending-lower low high [] l h = tt
Ascending-lower low high (d ∷ ds) l h = (omega (arith, h.0), h.1)

Ascending-++ :
    (low : ℕ) (ds es : List MoqDatagram)
    → Ascending low (ds ++ es)
    → Ascending low ds × Ascending low es
Ascending-++ low [] es h = (tt, h)
Ascending-++ low (d ∷ ds) es h =
    let (a, b) = Ascending-++ (d.sequence + 1) ds es h.1 in
    ((h.0, a), Ascending-lower low (d.sequence + 1) es (omega (arith, h.0)) b)

module _ (opus : Opus) where
  -- The buffer's invariant: sequence numbers ascend, so none is there twice.
  abbrev pub InOrder : AudioPipeline opus → Type 0
  InOrder p = Ascending 0 p.jitter_buffer

  -- Receiving and draining keep the buffer in order, and draining hands out, in order, a part of the
  -- buffer from its front and keeps the rest.
  pub buffer_incoming-drain_buffer-InOrder :
      (p : AudioPipeline opus) (d : MoqDatagram)
      → InOrder p
      → InOrder (buffer_incoming opus d p)
        × (let (q, played) = drain_buffer opus p in
            InOrder q × (Ascending 0 played × (played ++ q.jitter_buffer ≡ p.jitter_buffer)))
  unfolding buffer_incoming drain_buffer
  buffer_incoming-drain_buffer-InOrder p d h =
      let target = target_samples opus p in
      let split = drain_ready-++ target p.timestamp p.last_playback_ts p.jitter_buffer in
      let (ready, left) = drain_ready target p.timestamp p.last_playback_ts p.jitter_buffer in
      let (a, b) = Ascending-++ 0 ready left (subst (Ascending 0) (sym split) h) in
      (buffered-Ascending d p.jitter_buffer h, (b, (a, split)))
