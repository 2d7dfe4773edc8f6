-- ===== src/Client/Proxy/Recovery/Order.antt =====
-- The order in which crates/voip-client/src/proxy.rs tries the proxies to recover a tunnel.

use text.Mathlib.Text.{◌==◌ as str_eq}
use text.Mathlib.TextEquality.{eq_iff}
use three_pillars_voip.Base.{
  ℕ, ◌+◌, ◌≤◌, ◌≡◌, refl, if◌then◌else◌, min, List, [], ◌∷◌, ◌++◌, Option, none, some, String,
  arith, leb, inl, inr, Bool-cases, Option-cases,
}
use three_pillars_voip.Client.Proxy.Record.{ProxyRecord, find, others}
use three_pillars_voip.Client.Proxy.Recovery.{
  TunnelRecoveryHandler, insert_sorted, sort_by_latency, first, recovery_proxy_order,
}

-- From `low` on the latencies do not fall.
abbrev pub Ascending : ℕ → List ProxyRecord → Type 0
Ascending low [] = Unit {0}
Ascending low (p ∷ ps) = (low ≤ p.latency_hint_ms) × Ascending p.latency_hint_ms ps

insert_sorted-Ascending :
    (low : ℕ) (p : ProxyRecord) (ps : List ProxyRecord)
    → low ≤ p.latency_hint_ms
    → Ascending low ps
    → Ascending low (insert_sorted p ps)
unfolding insert_sorted
insert_sorted-Ascending low p [] h a = (h, tt)
insert_sorted-Ascending low p (q ∷ qs) h a =
    elim (Bool-cases (leb p.latency_hint_ms q.latency_hint_ms)) [
      | inl e ↦ rw e (h, (ground arith, a.1))
      | inr e ↦ rw e (a.0, insert_sorted-Ascending q.latency_hint_ms p qs (ground arith) a.1)
    ]

sort_by_latency-Ascending : (ps : List ProxyRecord) → Ascending 0 (sort_by_latency ps)
unfolding sort_by_latency
sort_by_latency-Ascending [] = tt
sort_by_latency-Ascending (p ∷ ps) =
    insert_sorted-Ascending 0 p (sort_by_latency ps) (omega arith) (sort_by_latency-Ascending ps)

-- How often a URL stands in a list of records.
abbrev pub count : String → List ProxyRecord → ℕ
count url [] = 0
count url (p ∷ ps) = (if str_eq p.proxy_url url then 1 else 0) + count url ps

count-insert_sorted :
    (url : String) (p : ProxyRecord) (ps : List ProxyRecord)
    → count url (insert_sorted p ps) ≡ count url (p ∷ ps)
unfolding insert_sorted
count-insert_sorted url p [] = refl
count-insert_sorted url p (q ∷ qs) = ground (arith, count-insert_sorted url p qs)

count-sort_by_latency :
    (url : String) (ps : List ProxyRecord) → count url (sort_by_latency ps) ≡ count url ps
unfolding sort_by_latency
count-sort_by_latency url [] = refl
count-sort_by_latency url (p ∷ ps) =
    omega (arith, count-insert_sorted url p (sort_by_latency ps), count-sort_by_latency url ps)

count-others :
    (last url : String) (ps : List ProxyRecord)
    → count url (others last ps) ≡ (if str_eq last url then 0 else count url ps)
unfolding others
count-others last url [] = ground arith
count-others last url (p ∷ ps) = ground (
  arith,
  count-others last url ps,
  eq_iff p.proxy_url last,
  eq_iff last url,
  eq_iff p.proxy_url url,
)

count-first-find :
    (last url : String) (ps : List ProxyRecord)
    → count url (first (find last ps)) ≡ (if str_eq last url then min (count url ps) 1 else 0)
unfolding find
count-first-find last url [] = ground arith
count-first-find last url (p ∷ ps) = ground (
  arith,
  count-first-find last url ps,
  eq_iff p.proxy_url last,
  eq_iff last url,
  eq_iff p.proxy_url url,
)

count-append :
    (url : String) (xs ys : List ProxyRecord) → count url (xs ++ ys) ≡ count url xs + count url ys
count-append url [] ys = omega arith
count-append url (x ∷ xs) ys = omega (arith, count-append url xs ys)

-- The cached record of the last successful proxy.
abbrev pub preferred : TunnelRecoveryHandler → Option ProxyRecord
preferred h = elim h.last_proxy_url [ none ↦ none | some last ↦ find last h.cached_proxies ]

-- How often a URL should be tried: as often as it is cached, the last successful one at most once.
abbrev pub tries : TunnelRecoveryHandler → String → ℕ
tries h url = elim h.last_proxy_url [
  | none ↦ count url h.cached_proxies
  | some last ↦
      if str_eq last url then min (count url h.cached_proxies) 1 else count url h.cached_proxies
]

order_count :
    (h : TunnelRecoveryHandler) (url : String) → count url (recovery_proxy_order h) ≡ tries h url
unfolding recovery_proxy_order
order_count h url = elim (Option-cases h.last_proxy_url) [
  | inl e ↦ rw (e, recovery_proxy_order) (count-sort_by_latency url h.cached_proxies)
  | inr (last, e) ↦
      let ps = h.cached_proxies in
      rw (e, recovery_proxy_order)
        (ground (
          arith,
          count-append url (first (find last ps)) (sort_by_latency (others last ps)),
          count-sort_by_latency url (others last ps),
          count-others last url ps,
          count-first-find last url ps,
        ))
]

-- Recovery tries the cached record of the last successful proxy first, if there is one, and the
-- others by rising latency; no cached URL is left out, and none is tried more often than it is
-- cached, the last successful one at most once.
pub recovery_proxy_order_lem :
    (h : TunnelRecoveryHandler)
    → ((rest : List ProxyRecord) × (recovery_proxy_order h ≡ first (preferred h) ++ rest)
        × Ascending 0 rest)
      × ((url : String) → count url (recovery_proxy_order h) ≡ tries h url)
unfolding recovery_proxy_order
recovery_proxy_order_lem h = elim (Option-cases h.last_proxy_url) [
  | inl e ↦ (
    (
      sort_by_latency h.cached_proxies,
      rw (e, recovery_proxy_order),
      sort_by_latency-Ascending h.cached_proxies,
    ),
    order_count h,
  )
  | inr (last, e) ↦ (
    (
      sort_by_latency (others last h.cached_proxies),
      rw (e, recovery_proxy_order),
      sort_by_latency-Ascending (others last h.cached_proxies),
    ),
    order_count h,
  )
]
