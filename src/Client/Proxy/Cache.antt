-- ===== src/Client/Proxy/Cache.antt =====
-- `ProxyCache` of crates/voip-client/src/proxy.rs. An instant is a number of nanoseconds and an
-- argument. The instant that each record carries is never read, and is left out.
pub mod Best
use three_pillars_voip.Base.{
  ℕ, ◌-◌, ◌*◌, Bool, true, false, not, ◌&&◌, ◌==◌, List, [], ◌∷◌, Option, none, some, String, leb,
  ltb, if◌then◌else◌, length,
}
use three_pillars_voip.Client.Proxy.Record.{ProxyRecord, find}

pub record ProxyCache : Type 0 where
  pub proxies : List ProxyRecord
  pub last_used : Option String
  pub created_at : ℕ
  pub ttl : ℕ

abbrev pub with_ttl : ℕ → ℕ → ProxyCache
with_ttl now ttl = record { proxies = []; last_used = none; created_at = now; ttl = ttl }

-- An hour.
abbrev pub new : ℕ → ProxyCache
new now = with_ttl now (3600 * 1000000000)

unfoldable pub update : ℕ → List ProxyRecord → ProxyCache → ProxyCache
update now proxies c = record c { proxies = proxies; created_at = now }

unfoldable pub is_valid : ℕ → ProxyCache → Bool
is_valid now c = ltb (now - c.created_at) c.ttl && not (length c.proxies == 0)

-- `min_by_key`, which gives the first of several minima.
unfoldable pub fastest : List ProxyRecord → Option ProxyRecord
fastest [] = none
fastest (p ∷ ps) = elim (fastest ps) [
  | none ↦ some p
  | some q ↦ if leb p.latency_hint_ms q.latency_hint_ms then some p else some q
]

abbrev pub last_cached : ProxyCache → Option ProxyRecord
last_cached c = elim c.last_used [ none ↦ none | some url ↦ find url c.proxies ]

unfoldable pub get_best : ℕ → ProxyCache → Option ProxyRecord
unfolding is_valid fastest
get_best now c =
    if not (is_valid now c)
    then none
    else elim (last_cached c) [ some p ↦ some p | none ↦ fastest c.proxies ]

pub clear : ℕ → ProxyCache → ProxyCache
clear now c = record c { proxies = []; last_used = none; created_at = now }

pub set_last_used : String → ProxyCache → ProxyCache
set_last_used url c = record c { last_used = some url }

pub get_all : ℕ → ProxyCache → List ProxyRecord
get_all now c = if is_valid now c then c.proxies else []
