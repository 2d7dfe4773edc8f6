-- ===== src/Client/Moq/Session/Subscriptions.antt =====
-- The identifiers of subscriptions, crates/voip-client/src/moq.rs.
use three_pillars_voip.Base.{
  ℕ, ◌+◌, ◌%◌, ◌<◌, ◌≡◌, refl, Bool, List, [], ◌∷◌, ◌++◌, u64_mod, arith, inl, inr, Bool-cases,
  true, false,
}
use three_pillars_voip.Client.Moq.Control.{TrackNamespace, StartPoint}
use three_pillars_voip.Client.Moq.Session.{MoqSession, TrackSubscription, subscribe, is_active}

-- The identifiers rise from `low` on and stay below `high`.
abbrev pub Rising : ℕ → List TrackSubscription → ℕ → Type 0
Rising low [] high = low < high + 1
Rising low (t ∷ ts) high = (low < t.subscribe_id + 1) × Rising (t.subscribe_id + 1) ts high

Rising-snoc :
    (low high : ℕ) (ts : List TrackSubscription) (t : TrackSubscription)
    → Rising low ts high
    → t.subscribe_id ≡ high
    → Rising low (ts ++ t ∷ []) (high + 1)
Rising-snoc low high [] t r e = (omega arith, omega arith)
Rising-snoc low high (u ∷ ts) t r e = (r.0, Rising-snoc (u.subscribe_id + 1) high ts t r.1 e)

Rising-later :
    (low high : ℕ) (ts : List TrackSubscription) → Rising low ts high → Rising low ts (high + 1)
Rising-later low high [] r = omega arith
Rising-later low high (u ∷ ts) r = (r.0, Rising-later (u.subscribe_id + 1) high ts r.1)

-- The identifiers of all subscriptions differ, each above the one before it and below the next to be
-- given, and a subscription keeps it so, whether its message goes out or not, while the next one fits a
-- `u64`.
pub subscribe-Rising :
    (writes : Bool) (t : TrackNamespace) (start : StartPoint) (s : MoqSession)
    → s.next_subscribe_id + 1 < u64_mod
    → Rising 0 s.subscriptions s.next_subscribe_id
    → let s' = (subscribe writes t start s).0 in Rising 0 s'.subscriptions s'.next_subscribe_id
unfolding subscribe
subscribe-Rising true t start s h r =
    let n = s.next_subscribe_id in
    let e : (n + 1) % u64_mod ≡ n + 1 = omega arith in
    elim (Bool-cases (is_active s.state)) [
      | inr i ↦ rw i r
      | inl i ↦
          rw (i, e)
            (Rising-snoc 0 n s.subscriptions
              (record { subscribe_id = n; namespace = t; start = start }) r refl)
    ]
subscribe-Rising false t start s h r =
    let n = s.next_subscribe_id in
    let e : (n + 1) % u64_mod ≡ n + 1 = omega arith in
    elim (Bool-cases (is_active s.state)) [
      | inr i ↦ rw i r
      | inl i ↦ rw (i, e) (Rising-later 0 n s.subscriptions r)
    ]
