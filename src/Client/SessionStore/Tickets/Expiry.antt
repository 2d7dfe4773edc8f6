-- ===== src/Client/SessionStore/Tickets/Expiry.antt =====
-- Which tickets crates/voip-client/src/session_store.rs gives out, and which it loses.
use three_pillars_voip.Base.{ℕ, ◌-◌, ◌≤◌, ◌<◌, ◌≡◌, none, some, List, [], ◌∷◌, ◌++◌, length, arith}
use three_pillars_voip.Client.SessionStore.Tickets.{
  ServerData, pop_back, evict_expired, enforce_limit, push_ticket, take_ticket,
}
use three_pillars_voip.Client.SessionStore.Tickets.Alignment.{
  Aligned, pop_back-append, evict_expired-aligned, enforce_limit-aligned,
}

module _ {A : Type 0} where
  evict_expired-append :
      (now ttl : ℕ) (xs : List A) (ts : List ℕ) (x : A) (t : ℕ)
      → length xs ≡ length ts
      → now - t < ttl
      → evict_expired now ttl (xs ++ x ∷ []) (ts ++ t ∷ [])
        ≡ ((evict_expired now ttl xs ts).0 ++ x ∷ [], (evict_expired now ttl xs ts).1 ++ t ∷ [])
  unfolding evict_expired
  evict_expired-append now ttl [] [] x t e h = ground arith
  evict_expired-append now ttl [] (u ∷ ts) x t e h = absurd (omega arith)
  evict_expired-append now ttl (y ∷ xs) [] x t e h = absurd (omega arith)
  evict_expired-append now ttl (y ∷ xs) (u ∷ ts) x t e h =
      ground (arith, evict_expired-append now ttl xs ts x t (omega arith) h)

module _ {Group Tls12 Tls13 : Type 0} where
  -- While the queues are in step, the ticket that was just stored is the one that is taken, as long as
  -- its time to live has not passed.
  pub take_ticket-push_ticket :
      (stored now ttl : ℕ) (value : Tls13) (d : ServerData Group Tls12 Tls13)
      → Aligned d
      → now - stored < ttl
      → (take_ticket now ttl (push_ticket stored ttl value d)).1 ≡ some value
  unfolding take_ticket push_ticket
  take_ticket-push_ticket stored now ttl value d a h =
      let (xs, ts) = evict_expired stored ttl d.tls13 d.tls13_timestamps in
      let e = evict_expired-aligned stored ttl d.tls13 d.tls13_timestamps a in
      let e' = enforce_limit-aligned xs ts e in
      let (xs', ts') = enforce_limit (xs, ts) in
      rw (evict_expired-append now ttl xs' ts' value stored e' h)
        (rw (pop_back-append (evict_expired now ttl xs' ts').0 value))

  -- After a ticket is taken, the next one that is stored is lost as soon as the taken one would have
  -- expired, however recently it was stored.
  pub fresh_ticket_lost :
      (first taken second now ttl : ℕ) (a b : Tls13) (d : ServerData Group Tls12 Tls13)
      → d.tls13 ≡ a ∷ []
      → d.tls13_timestamps ≡ first ∷ []
      → taken - first < ttl
      → second - first < ttl
      → ttl ≤ now - first
      → let (d', ticket) = take_ticket taken ttl d in
        (ticket ≡ some a) × ((take_ticket now ttl (push_ticket second ttl b d')).1 ≡ none)
  unfolding take_ticket push_ticket evict_expired pop_back
  fresh_ticket_lost first taken second now ttl a b d e s h k l = ground arith
