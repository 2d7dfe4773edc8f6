-- ===== src/Client/Proxy/Recovery.antt =====
-- `TunnelRecoveryHandler` of crates/voip-client/src/proxy.rs.
pub mod Order
use three_pillars_voip.Base.{
  ℕ, List, [], ◌∷◌, ◌++◌, Option, none, some, String, leb, if◌then◌else◌, length,
}
use three_pillars_voip.Client.Proxy.Record.{ProxyRecord, find, others}

-- The timeout is in milliseconds.
pub record TunnelRecoveryHandler : Type 0 where
  pub cached_proxies : List ProxyRecord
  pub last_proxy_url : Option String
  pub max_recovery_attempts : ℕ
  pub recovery_timeout : ℕ

abbrev pub new : ℕ → ℕ → TunnelRecoveryHandler
new max_recovery_attempts recovery_timeout = record {
  cached_proxies = [];
  last_proxy_url = none;
  max_recovery_attempts = max_recovery_attempts;
  recovery_timeout = recovery_timeout;
}

abbrev pub default_settings : TunnelRecoveryHandler
default_settings = new 3 600

abbrev pub update_proxies : List ProxyRecord → TunnelRecoveryHandler → TunnelRecoveryHandler
update_proxies proxies h = record h { cached_proxies = proxies }

abbrev pub set_last_proxy : String → TunnelRecoveryHandler → TunnelRecoveryHandler
set_last_proxy url h = record h { last_proxy_url = some url }

-- `sort_by_key(|p| p.latency_hint_ms)`, which is stable: a record goes before the first one behind
-- it that is not faster.
unfoldable pub insert_sorted : ProxyRecord → List ProxyRecord → List ProxyRecord
insert_sorted p [] = p ∷ []
insert_sorted p (q ∷ qs) =
    if leb p.latency_hint_ms q.latency_hint_ms then p ∷ q ∷ qs else q ∷ insert_sorted p qs

unfoldable pub sort_by_latency : List ProxyRecord → List ProxyRecord
sort_by_latency [] = []
sort_by_latency (p ∷ ps) = insert_sorted p (sort_by_latency ps)

abbrev pub first : Option ProxyRecord → List ProxyRecord
first none = []
first (some p) = p ∷ []

pub recovery_proxy_order : TunnelRecoveryHandler → List ProxyRecord
recovery_proxy_order h = elim h.last_proxy_url [
  | none ↦ sort_by_latency h.cached_proxies
  | some url ↦ first (find url h.cached_proxies) ++ sort_by_latency (others url h.cached_proxies)
]

pub cached_proxy_count : TunnelRecoveryHandler → ℕ
cached_proxy_count h = length h.cached_proxies
