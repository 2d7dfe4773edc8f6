-- ===== src/Tests/Tickets.antt =====
-- The two queues of one server, with a time to live of 100.
use three_pillars_voip.Base.{ℕ, ◌-◌, ◌<◌, ◌≡◌, none, some, [], ◌∷◌, arith}
use three_pillars_voip.Client.SessionStore.Tickets.{ServerData, take_ticket}
use three_pillars_voip.Client.SessionStore.Tickets.Tracking.{Tracked, take_ticket-Tracked}

-- Key exchange groups and TLS 1.2 sessions are numbers here.
abbrev one : ServerData ℕ ℕ ℕ
one = record { kx_hint = some 29; tls12 = none; tls13 = 7 ∷ []; tls13_timestamps = 10 ∷ [] }

abbrev marked : ServerData ℕ ℕ (ℕ × ℕ)
marked = record {
  kx_hint = none;
  tls12 = none;
  tls13 = (7, 10) ∷ (8, 90) ∷ [];
  tls13_timestamps = 10 ∷ 90 ∷ [];
}

marked-Tracked : Tracked 120 marked
marked-Tracked = record {
  covers = (omega arith, (omega arith, tt));
  ordered = (omega arith, (omega arith, omega arith));
}

take_ticket-Tracked_example :
    Tracked 120 (take_ticket 120 100 marked).0
    × ((v : ℕ) (s : ℕ) → (take_ticket 120 100 marked).1 ≡ some (v, s) → 120 - s < 100)
take_ticket-Tracked_example = take_ticket-Tracked 120 100 marked marked-Tracked
