-- ===== src/Client/SessionStore.antt =====
-- The session ticket store, crates/voip-client/src/session_store.rs. A server's name is a text, an
-- instant is a number of nanoseconds and an argument of the call, and the session values and key
-- exchange groups of rustls are types that the store never looks into.
pub mod Tickets
use three_pillars_voip.Base.{
  ℕ, suc, ◌+◌, ◌*◌, Bool, true, false, Option, none, some, String, List, [], ◌∷◌, length,
}
use three_pillars_voip.Base.Maps.{StringMap, lookup, insert}
use three_pillars_voip.Core.Config.{VoipConfig}
use Tickets.{ServerData, empty, push_ticket, take_ticket}

-- `ttl` is in nanoseconds.
pub record SessionTicketStore (Group Tls12 Tls13 : Type 0) : Type 0 where
  pub servers : StringMap (ServerData Group Tls12 Tls13)
  pub ttl : ℕ

module _ {Group Tls12 Tls13 : Type 0} where
  pub new : ℕ → SessionTicketStore Group Tls12 Tls13
  new ttl_secs = record { servers = []; ttl = ttl_secs * 1000000000 }

  pub from_config : VoipConfig → SessionTicketStore Group Tls12 Tls13
  from_config config = new config.session_ticket_ttl_secs

  -- `entry(server_name).or_default()`.
  entry : String → SessionTicketStore Group Tls12 Tls13 → ServerData Group Tls12 Tls13
  entry name s = elim (lookup name s.servers) [ some d ↦ d | none ↦ empty ]

  put :
      String
      → ServerData Group Tls12 Tls13
      → SessionTicketStore Group Tls12 Tls13
      → SessionTicketStore Group Tls12 Tls13
  put name d s = record s { servers = insert name d s.servers }

  pub set_kx_hint :
      String → Group → SessionTicketStore Group Tls12 Tls13 → SessionTicketStore Group Tls12 Tls13
  unfolding entry put
  set_kx_hint name group s = put name (record (entry name s) { kx_hint = some group }) s

  pub kx_hint : String → SessionTicketStore Group Tls12 Tls13 → Option Group
  kx_hint name s = elim (lookup name s.servers) [ some d ↦ d.kx_hint | none ↦ none ]

  pub set_tls12_session :
      String → Tls12 → SessionTicketStore Group Tls12 Tls13 → SessionTicketStore Group Tls12 Tls13
  unfolding entry put
  set_tls12_session name value s = put name (record (entry name s) { tls12 = some value }) s

  pub tls12_session : String → SessionTicketStore Group Tls12 Tls13 → Option Tls12
  tls12_session name s = elim (lookup name s.servers) [ some d ↦ d.tls12 | none ↦ none ]

  pub remove_tls12_session :
      String → SessionTicketStore Group Tls12 Tls13 → SessionTicketStore Group Tls12 Tls13
  unfolding put
  remove_tls12_session name s = elim (lookup name s.servers) [
    | some d ↦ put name (record d { tls12 = none }) s
    | none ↦ s
  ]

  pub insert_tls13_ticket :
      ℕ
      → String
      → Tls13
      → SessionTicketStore Group Tls12 Tls13
      → SessionTicketStore Group Tls12 Tls13
  unfolding entry put
  insert_tls13_ticket now name value s = put name (push_ticket now s.ttl value (entry name s)) s

  pub take_tls13_ticket :
      ℕ
      → String
      → SessionTicketStore Group Tls12 Tls13
      → SessionTicketStore Group Tls12 Tls13 × Option Tls13
  unfolding put
  take_tls13_ticket now name s = elim (lookup name s.servers) [
    | some d ↦ let (d', ticket) = take_ticket now s.ttl d in (put name d' s, ticket)
    | none ↦ (s, none)
  ]

  count_tickets : StringMap (ServerData Group Tls12 Tls13) → ℕ
  count_tickets [] = 0
  count_tickets ((_, d) ∷ m) = length d.tls13 + count_tickets m

  pub ticket_count : SessionTicketStore Group Tls12 Tls13 → ℕ
  unfolding count_tickets
  ticket_count s = count_tickets s.servers

  pub clear : SessionTicketStore Group Tls12 Tls13 → SessionTicketStore Group Tls12 Tls13
  clear s = record s { servers = [] }
