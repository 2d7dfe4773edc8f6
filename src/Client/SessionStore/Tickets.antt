-- ===== src/Client/SessionStore/Tickets.antt =====
-- One server's tickets in crates/voip-client/src/session_store.rs: two queues, of tickets and of the
-- instants at which they were stored.
pub mod Expiry
pub mod Tracking
pub mod Alignment
use three_pillars_voip.Base.{
  ℕ, suc, ◌-◌, Bool, true, false, Option, none, some, List, [], ◌∷◌, ◌++◌, length, leb,
  if◌then◌else◌,
}

abbrev pub max_tls13_tickets_per_server : ℕ
max_tls13_tickets_per_server = 4

pub record ServerData (Group Tls12 Tls13 : Type 0) : Type 0 where
  pub kx_hint : Option Group
  pub tls12 : Option Tls12
  pub tls13 : List Tls13
  pub tls13_timestamps : List ℕ

-- `pop_front`, whose result is not used.
abbrev pub pop_front {ℓ} : {A : Type ℓ} → List A → List A
pop_front [] = []
pop_front (x ∷ xs) = xs

module _ {A : Type 0} where
  -- `pop_back`: the queue that is left, and the element.
  unfoldable pub pop_back : List A → List A × Option A
  pop_back [] = ([], none)
  pop_back (x ∷ []) = ([], some x)
  pop_back (x ∷ y ∷ xs) = let (left, last) = pop_back (y ∷ xs) in (x ∷ left, last)

  -- `evict_expired_tickets`, on the two queues.
  unfoldable pub evict_expired : ℕ → ℕ → List A → List ℕ → List A × List ℕ
  evict_expired now ttl tickets [] = (tickets, [])
  evict_expired now ttl tickets (stored_at ∷ rest) =
      let evicted = evict_expired now ttl (pop_front tickets) rest in
      if leb ttl (now - stored_at) then evicted else (tickets, stored_at ∷ rest)

  -- Make room for one more ticket.
  abbrev pub enforce_limit : List A × List ℕ → List A × List ℕ
  enforce_limit (tickets, stamps) =
      if leb max_tls13_tickets_per_server (length tickets)
      then (pop_front tickets, pop_front stamps)
      else (tickets, stamps)

module _ {Group Tls12 Tls13 : Type 0} where
  abbrev pub empty : ServerData Group Tls12 Tls13
  empty = record { kx_hint = none; tls12 = none; tls13 = []; tls13_timestamps = [] }

  -- `insert_tls13_ticket`, on the server's data.
  pub push_ticket : ℕ → ℕ → Tls13 → ServerData Group Tls12 Tls13 → ServerData Group Tls12 Tls13
  push_ticket now ttl value d =
      let (tickets, stamps) = enforce_limit (evict_expired now ttl d.tls13 d.tls13_timestamps) in
      record d { tls13 = tickets ++ value ∷ []; tls13_timestamps = stamps ++ now ∷ [] }

  -- `take_tls13_ticket`, on the server's data: the instants are left as they are.
  unfoldable pub take_ticket :
      ℕ → ℕ → ServerData Group Tls12 Tls13 → ServerData Group Tls12 Tls13 × Option Tls13
  take_ticket now ttl d =
      let (tickets, stamps) = evict_expired now ttl d.tls13 d.tls13_timestamps in
      let (left, ticket) = pop_back tickets in
      (record d { tls13 = left; tls13_timestamps = stamps }, ticket)
