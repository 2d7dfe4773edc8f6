-- ===== src/Client/SessionStore/Tickets/Alignment.antt =====
-- The two queues of a server in crates/voip-client/src/session_store.rs are meant to go in step.
use three_pillars_voip.Base.{
  ℕ, suc, ◌≤◌, ◌≡◌, refl, some, List, [], ◌∷◌, ◌++◌, length, length-append, arith,
}
use three_pillars_voip.Client.SessionStore.Tickets.{
  ServerData, pop_back, evict_expired, enforce_limit, push_ticket, take_ticket,
}

module _ {A : Type 0} where
  pub evict_expired-aligned :
      (now ttl : ℕ) (xs : List A) (ts : List ℕ)
      → length xs ≡ length ts
      → length (evict_expired now ttl xs ts).0 ≡ length (evict_expired now ttl xs ts).1
  unfolding evict_expired
  evict_expired-aligned now ttl xs [] e = e
  evict_expired-aligned now ttl [] (t ∷ ts) e = absurd (omega arith)
  evict_expired-aligned now ttl (x ∷ xs) (t ∷ ts) e =
      ground (arith, evict_expired-aligned now ttl xs ts (omega arith))

  pub enforce_limit-aligned :
      (xs : List A) (ts : List ℕ)
      → length xs ≡ length ts
      → length (enforce_limit (xs, ts)).0 ≡ length (enforce_limit (xs, ts)).1
  enforce_limit-aligned [] [] e = refl
  enforce_limit-aligned [] (t ∷ ts) e = absurd (omega arith)
  enforce_limit-aligned (x ∷ xs) [] e = absurd (omega arith)
  enforce_limit-aligned (x ∷ xs) (t ∷ ts) e = ground arith

  evict_expired-length-le :
      (now ttl : ℕ) (xs : List A) (ts : List ℕ) → length (evict_expired now ttl xs ts).0 ≤ length xs
  unfolding evict_expired
  evict_expired-length-le now ttl xs [] = omega arith
  evict_expired-length-le now ttl [] (t ∷ ts) =
      ground (arith, evict_expired-length-le now ttl [] ts)
  evict_expired-length-le now ttl (x ∷ xs) (t ∷ ts) =
      ground (arith, evict_expired-length-le now ttl xs ts)

  enforce_limit-length-le :
      (xs : List A) (ts : List ℕ) → length xs ≤ 4 → length (enforce_limit (xs, ts)).0 ≤ 3
  enforce_limit-length-le [] ts h = omega arith
  enforce_limit-length-le (x ∷ xs) ts h = ground arith

  -- `pop_back` splits off the last element.
  pub pop_back-append : (xs : List A) (x : A) → pop_back (xs ++ x ∷ []) ≡ (xs, some x)
  unfolding pop_back
  pop_back-append [] x = refl
  pop_back-append (y ∷ []) x = refl
  pop_back-append (y ∷ z ∷ xs) x = rw (pop_back-append (z ∷ xs) x)

  pop_back-length :
      (xs : List A) {y : A} → (pop_back xs).1 ≡ some y → suc (length (pop_back xs).0) ≡ length xs
  unfolding pop_back
  pop_back-length [] e = cc
  pop_back-length (x ∷ []) e = refl
  pop_back-length (x ∷ z ∷ xs) e = omega (arith, pop_back-length (z ∷ xs) e)

module _ {Group Tls12 Tls13 : Type 0} where
  abbrev pub Aligned : ServerData Group Tls12 Tls13 → Type 0
  Aligned d = length d.tls13 ≡ length d.tls13_timestamps

  -- Storing a ticket keeps the queues in step, and leaves at most four tickets if there were at most
  -- four.
  pub push_ticket-Aligned :
      (now ttl : ℕ) (value : Tls13) (d : ServerData Group Tls12 Tls13)
      → Aligned d
      → length d.tls13 ≤ 4
      → Aligned (push_ticket now ttl value d) × (length (push_ticket now ttl value d).tls13 ≤ 4)
  unfolding push_ticket
  push_ticket-Aligned now ttl value d a h =
      let (xs, ts) = evict_expired now ttl d.tls13 d.tls13_timestamps in
      let e = evict_expired-aligned now ttl d.tls13 d.tls13_timestamps a in
      let l = evict_expired-length-le now ttl d.tls13 d.tls13_timestamps in
      let e' = enforce_limit-aligned xs ts e in
      let l' = enforce_limit-length-le xs ts (omega arith) in
      let (xs', ts') = enforce_limit (xs, ts) in
      (
        omega (arith, length-append xs' (value ∷ []), length-append ts' (now ∷ [])),
        omega (arith, length-append xs' (value ∷ [])),
      )

  -- Every ticket that is taken puts the queues out of step: one instant too many stays behind.
  pub take_ticket_misaligned :
      (now ttl : ℕ) (d : ServerData Group Tls12 Tls13) {ticket : Tls13}
      → Aligned d
      → (take_ticket now ttl d).1 ≡ some ticket
      → suc (length (take_ticket now ttl d).0.tls13)
        ≡ length (take_ticket now ttl d).0.tls13_timestamps
  unfolding take_ticket
  take_ticket_misaligned now ttl d a e = omega (
    arith,
    pop_back-length (evict_expired now ttl d.tls13 d.tls13_timestamps).0 e,
    evict_expired-aligned now ttl d.tls13 d.tls13_timestamps a,
  )
