-- ===== src/Client/SessionStore/Tickets/Tracking.antt =====
-- Tickets of crates/voip-client/src/session_store.rs that carry the instant at which they were
-- stored, to follow them through the two queues.
use three_pillars_voip.Base.{
  Bool-cases, inl, inr, ℕ, ◌-◌, ◌≤◌, ◌<◌, ◌≡◌, some, List, [], ◌∷◌, ◌++◌, length, arith, leb,
}
use three_pillars_voip.Client.SessionStore.Tickets.{
  ServerData, pop_front, pop_back, evict_expired, enforce_limit, push_ticket, take_ticket,
}

-- Each ticket is at least as young as the instant at its place, and the instants do not go back.
module _ {A : Type 0} where
  abbrev pub Covers : List (A × ℕ) → List ℕ → Type 0
  Covers [] ts = Unit {0}
  Covers (x ∷ xs) [] = ⊥
  Covers ((v, s) ∷ xs) (t ∷ ts) = (t ≤ s) × Covers xs ts

abbrev pub Ordered : ℕ → List ℕ → ℕ → Type 0
Ordered start [] now = start ≤ now
Ordered start (t ∷ ts) now = (start ≤ t) × Ordered t ts now

Ordered-from : (a b : ℕ) (ts : List ℕ) (end : ℕ) → a ≤ b → Ordered b ts end → Ordered a ts end
Ordered-from a b [] end h o = omega arith
Ordered-from a b (t ∷ ts) end h o = (omega arith, o.1)

Ordered-le : (start : ℕ) (ts : List ℕ) (end : ℕ) → Ordered start ts end → start ≤ end
Ordered-le start [] end o = o
Ordered-le start (t ∷ ts) end o = omega (arith, Ordered-le t ts end o.1)

Ordered-append :
    (start : ℕ) (ts : List ℕ) (now later : ℕ)
    → Ordered start ts now
    → now ≤ later
    → Ordered start (ts ++ now ∷ []) later
Ordered-append start [] now later o h = (o, h)
Ordered-append start (t ∷ ts) now later o h = (o.0, Ordered-append t ts now later o.1 h)

module _ {A : Type 0} where
  evict_expired-Covers :
      (now ttl : ℕ) (xs : List (A × ℕ)) (ts : List ℕ)
      → Covers xs ts
      → Covers (evict_expired now ttl xs ts).0 (evict_expired now ttl xs ts).1
  unfolding evict_expired
  evict_expired-Covers now ttl xs [] c = c
  evict_expired-Covers now ttl [] (t ∷ ts) c = elim (Bool-cases (leb ttl (now - t))) [
    | inl e ↦ rw e (evict_expired-Covers now ttl [] ts tt)
    | inr e ↦ rw e tt
  ]
  evict_expired-Covers now ttl ((v, s) ∷ xs) (t ∷ ts) c = elim (Bool-cases (leb ttl (now - t))) [
    | inl e ↦ rw e (evict_expired-Covers now ttl xs ts c.1)
    | inr e ↦ rw e c
  ]

  evict_expired-Ordered :
      (start now ttl : ℕ) (xs : List A) (ts : List ℕ) (end : ℕ)
      → Ordered start ts end
      → Ordered start (evict_expired now ttl xs ts).1 end
  unfolding evict_expired
  evict_expired-Ordered start now ttl xs [] end o = o
  evict_expired-Ordered start now ttl xs (t ∷ ts) end o = elim (Bool-cases (leb ttl (now - t))) [
    | inl e ↦ rw e (
        evict_expired-Ordered start now ttl (pop_front xs) ts end
          (Ordered-from start t ts end o.0 o.1))
    | inr e ↦ rw e o
  ]

  abbrev Fresh : ℕ → ℕ → List (A × ℕ) → Type 0
  Fresh now ttl [] = Unit
  Fresh now ttl ((v, s) ∷ xs) = (now - s < ttl) × Fresh now ttl xs

  Covers-Fresh :
      (start now ttl : ℕ) (xs : List (A × ℕ)) (ts : List ℕ) (end : ℕ)
      → Covers xs ts
      → Ordered start ts end
      → now - start < ttl
      → Fresh now ttl xs
  Covers-Fresh start now ttl [] ts end c o h = tt
  Covers-Fresh start now ttl ((v, s) ∷ xs) [] end c o h = absurd c
  Covers-Fresh start now ttl ((v, s) ∷ xs) (t ∷ ts) end c o h =
      (omega arith, Covers-Fresh t now ttl xs ts end c.1 o.1 (omega arith))

  evict_expired-Fresh :
      (start now ttl : ℕ) (xs : List (A × ℕ)) (ts : List ℕ) (end : ℕ)
      → Covers xs ts
      → Ordered start ts end
      → Fresh now ttl (evict_expired now ttl xs ts).0
  unfolding evict_expired
  evict_expired-Fresh start now ttl [] [] end c o = tt
  evict_expired-Fresh start now ttl ((v, s) ∷ xs) [] end c o = absurd c
  evict_expired-Fresh start now ttl [] (t ∷ ts) end c o = elim (Bool-cases (leb ttl (now - t))) [
    | inl e ↦ rw e (evict_expired-Fresh t now ttl [] ts end tt o.1)
    | inr e ↦ rw e tt
  ]
  evict_expired-Fresh start now ttl ((v, s) ∷ xs) (t ∷ ts) end c o =
      elim (Bool-cases (leb ttl (now - t))) [
        | inl e ↦ rw e (evict_expired-Fresh t now ttl xs ts end c.1 o.1)
        | inr e ↦
            rw e (
              Covers-Fresh t now ttl ((v, s) ∷ xs) (t ∷ ts) end c (omega arith, o.1) (ground arith))
      ]

  pop_back-Fresh :
      (now ttl : ℕ) (xs : List (A × ℕ)) (v : A) (s : ℕ)
      → Fresh now ttl xs
      → (pop_back xs).1 ≡ some (v, s)
      → now - s < ttl
  unfolding pop_back
  pop_back-Fresh now ttl [] v s f e = cc
  pop_back-Fresh now ttl ((w, t) ∷ []) v s f e = ground arith
  pop_back-Fresh now ttl ((w, t) ∷ y ∷ xs) v s f e = pop_back-Fresh now ttl (y ∷ xs) v s f.1 e

  pop_back-Covers : (xs : List (A × ℕ)) (ts : List ℕ) → Covers xs ts → Covers (pop_back xs).0 ts
  unfolding pop_back
  pop_back-Covers [] ts c = tt
  pop_back-Covers ((w, t) ∷ []) ts c = tt
  pop_back-Covers ((w, t) ∷ y ∷ xs) [] c = absurd c
  pop_back-Covers ((w, t) ∷ y ∷ xs) (u ∷ ts) c = (c.0, pop_back-Covers (y ∷ xs) ts c.1)

  enforce_limit-Covers :
      (xs : List (A × ℕ)) (ts : List ℕ)
      → Covers xs ts
      → Covers (enforce_limit (xs, ts)).0 (enforce_limit (xs, ts)).1
  enforce_limit-Covers [] ts c = ground arith
  enforce_limit-Covers (x ∷ xs) [] c = absurd c
  enforce_limit-Covers ((v, s) ∷ xs) (t ∷ ts) c = elim (Bool-cases (leb 4 (length ((v, s) ∷ xs)))) [
    | inl e ↦ rw e c.1
    | inr e ↦ rw e c
  ]

  enforce_limit-Ordered :
      (start : ℕ) (xs : List A) (ts : List ℕ) (end : ℕ)
      → Ordered start ts end
      → Ordered start (enforce_limit (xs, ts)).1 end
  enforce_limit-Ordered start xs [] end o = ground arith
  enforce_limit-Ordered start xs (t ∷ ts) end o =
      ground (arith, Ordered-from start t ts end o.0 o.1)

  Covers-append :
      (xs : List (A × ℕ)) (ts : List ℕ) (v : A) (start now : ℕ)
      → Covers xs ts
      → Ordered start ts now
      → Covers (xs ++ (v, now) ∷ []) (ts ++ now ∷ [])
  Covers-append [] [] v start now c o = (omega arith, tt)
  Covers-append [] (t ∷ ts) v start now c o = (Ordered-le t ts now o.1, tt)
  Covers-append (x ∷ xs) [] v start now c o = absurd c
  Covers-append ((w, s) ∷ xs) (t ∷ ts) v start now c o = (c.0, Covers-append xs ts v t now c.1 o.1)

module _ {Group Tls12 A : Type 0} where
  -- The queues of a server, at the instant `now`.
  pub record Tracked (now : ℕ) (d : ServerData Group Tls12 (A × ℕ)) : Type 0 where
    pub covers : Covers d.tls13 d.tls13_timestamps
    pub ordered : Ordered 0 d.tls13_timestamps now

  -- Storing a ticket, marked with the instant, keeps the queues tracked at that and any later instant.
  pub push_ticket-Tracked :
      (now later ttl : ℕ) (v : A) (d : ServerData Group Tls12 (A × ℕ))
      → now ≤ later
      → Tracked now d
      → Tracked later (push_ticket now ttl (v, now) d)
  unfolding push_ticket
  push_ticket-Tracked now later ttl v d h k =
      let (xs, ts) = evict_expired now ttl d.tls13 d.tls13_timestamps in
      let c = evict_expired-Covers now ttl _ _ k.covers in
      let o = evict_expired-Ordered 0 now ttl d.tls13 _ now k.ordered in
      let c' = enforce_limit-Covers xs ts c in
      let o' = enforce_limit-Ordered 0 xs ts now o in
      record {
        covers = Covers-append _ _ v 0 now c' o';
        ordered = Ordered-append 0 _ now later o' h;
      }

  -- Taking a ticket keeps the queues tracked, and no ticket that is given out is as old as the time to
  -- live: each carries the instant at which it was stored.
  pub take_ticket-Tracked :
      (now ttl : ℕ) (d : ServerData Group Tls12 (A × ℕ))
      → Tracked now d
      → Tracked now (take_ticket now ttl d).0
        × ((v : A) (s : ℕ) → (take_ticket now ttl d).1 ≡ some (v, s) → now - s < ttl)
  unfolding take_ticket
  take_ticket-Tracked now ttl d k =
      let (xs, ts) = evict_expired now ttl d.tls13 d.tls13_timestamps in
      (
        record {
          covers = pop_back-Covers xs ts (evict_expired-Covers now ttl _ _ k.covers);
          ordered = evict_expired-Ordered 0 now ttl d.tls13 _ now k.ordered;
        },
        λ v s e.
            pop_back-Fresh now ttl xs v s (evict_expired-Fresh 0 now ttl _ _ now k.covers k.ordered)
              e,
      )
