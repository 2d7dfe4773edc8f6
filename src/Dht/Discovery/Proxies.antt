-- ===== src/Dht/Discovery/Proxies.antt =====
-- Finding and choosing a proxy, crates/voip-dht/src/discovery.rs.
use text.Mathlib.Text.{◌==◌ as str_eq}
use three_pillars_voip.Base.{
  ℕ, ◌≤◌, ◌≡◌, ◌⊎◌, refl, inl, inr, Bool, true, false, not, ◌&&◌, ◌||◌, leb, ltb, Option, none,
  some, List, [], ◌∷◌, map, length, ◌==◌, String, if◌then◌else◌, arith, Bool-cases, subst,
}
use three_pillars_voip.Dht.Record.{ProxyRecord, proxy_is_expired}
use three_pillars_voip.Dht.Discovery.{
  Network, Answer, found, failed, timed_out, Result, ok, err, body_of, http, unsigned_proxy, ◌>>=◌,
}

abbrev no_region : Option String → Bool
no_region none = true
no_region (some region) = false

-- The three filters of `select_proxy`.
unfoldable pub is_eligible : ℕ → Option String → ProxyRecord → Bool
is_eligible now max_region_distance p =
    not (proxy_is_expired now p)
    && ltb 0 p.capacity
    && (no_region max_region_distance || str_eq p.region "")

-- `min_by_key`: the first of the fastest.
unfoldable pub faster : ProxyRecord → Option ProxyRecord → ProxyRecord
faster p none = p
faster p (some q) = if leb p.latency_hint_ms q.latency_hint_ms then p else q

unfoldable pub select_proxy : ℕ → Option String → List ProxyRecord → Option ProxyRecord
unfolding is_eligible faster
select_proxy now region [] = none
select_proxy now region (p ∷ ps) =
    let rest = select_proxy now region ps in
    if is_eligible now region p then some (faster p rest) else rest

-- `sort_by_key`, which is stable.
unfoldable pub insert_by_latency : ProxyRecord → List ProxyRecord → List ProxyRecord
insert_by_latency p [] = p ∷ []
insert_by_latency p (q ∷ qs) =
    let rest = insert_by_latency p qs in
    if leb p.latency_hint_ms q.latency_hint_ms then p ∷ q ∷ qs else q ∷ rest

module _ (net : Network) where
  abbrev pub proxy_of : Answer → Option ProxyRecord
  proxy_of (found bytes) = net.decode_proxy bytes
  proxy_of failed = none
  proxy_of timed_out = none

  abbrev live : ℕ → Option ProxyRecord → Option ProxyRecord
  live now none = none
  live now (some p) = if proxy_is_expired now p then none else some p

  abbrev added : Option ProxyRecord → List ProxyRecord → List ProxyRecord
  added none ps = ps
  added (some p) ps = insert_by_latency p ps

  -- A lookup that fails, a record that cannot be read and one that has expired are skipped.
  unfoldable pub discover_proxy_dht : ℕ → List String → List ProxyRecord
  discover_proxy_dht now [] = []
  discover_proxy_dht now (node_id ∷ rest) =
      added (live now (proxy_of (net.proxy_record node_id))) (discover_proxy_dht now rest)

  unfoldable pub discover_proxy_signaling : ℕ → Result (List ProxyRecord)
  discover_proxy_signaling now = do
    entries ← body_of http http net.proxies_response
    ok (map (unsigned_proxy net now) entries)

  abbrev nonempty : Result (List ProxyRecord) → Bool
  nonempty (ok ps) = not (length ps == 0)
  nonempty (err e) = false

  unfoldable pub discover_proxy : Bool → ℕ → List String → Result (List ProxyRecord)
  discover_proxy first_dht now node_ids =
      let table = ok (discover_proxy_dht now node_ids) in
      let server = discover_proxy_signaling now in
      if first_dht
      then (if nonempty table then table else server)
      else (if nonempty server then server else table)

-- No proxy of the list that may be chosen is faster.
abbrev pub Beats : ℕ → Option String → ProxyRecord → List ProxyRecord → Type 0
Beats now region p [] = Unit {0}
Beats now region p (q ∷ qs) =
    ((is_eligible now region q ≡ false) ⊎ (p.latency_hint_ms ≤ q.latency_hint_ms))
    × Beats now region p qs

abbrev pub NoneEligible : ℕ → Option String → List ProxyRecord → Type 0
NoneEligible now region [] = Unit {0}
NoneEligible now region (q ∷ qs) = (is_eligible now region q ≡ false) × NoneEligible now region qs

-- The proxy stands in the list.
abbrev pub Among : ProxyRecord → List ProxyRecord → Type 0
Among p [] = ⊥
Among p (q ∷ qs) = (p ≡ q) ⊎ Among p qs

abbrev pub Chosen : ℕ → Option String → List ProxyRecord → Option ProxyRecord → Type 0
Chosen now region ps none = NoneEligible now region ps
Chosen now region ps (some p) =
    (is_eligible now region p ≡ true) × Among p ps × Beats now region p ps

Beats-from :
    (now : ℕ) (region : Option String) (p q : ProxyRecord) (ps : List ProxyRecord)
    → p.latency_hint_ms ≤ q.latency_hint_ms
    → Beats now region q ps
    → Beats now region p ps
Beats-from now region p q [] h b = tt
Beats-from now region p q (r ∷ rs) h b =
    (elim b.0 [ inl e ↦ inl e | inr l ↦ inr (omega arith) ], Beats-from now region p q rs h b.1)

Beats-none :
    (now : ℕ) (region : Option String) (p : ProxyRecord) (ps : List ProxyRecord)
    → NoneEligible now region ps
    → Beats now region p ps
Beats-none now region p [] n = tt
Beats-none now region p (q ∷ qs) n = (inl n.0, Beats-none now region p qs n.1)

-- Which of the two it is.
faster-cases :
    (p q : ProxyRecord)
    → ((p ≡ faster p (some q)) × (p.latency_hint_ms ≤ q.latency_hint_ms))
      ⊎ ((q ≡ faster p (some q)) × (q.latency_hint_ms ≤ p.latency_hint_ms))
unfolding faster
faster-cases p q = ground arith

-- One more candidate in front.
Chosen-step :
    (now : ℕ) (region : Option String) (p : ProxyRecord) (ps : List ProxyRecord)
    (rest : Option ProxyRecord)
    → Chosen now region ps rest
    → Chosen now region (p ∷ ps) (if is_eligible now region p then some (faster p rest) else rest)
Chosen-step now region p ps none c = elim (Bool-cases (is_eligible now region p)) [
  | inl e ↦ rw e (unfold faster in (e, inl refl, (inr (omega arith), Beats-none now region p ps c)))
  | inr e ↦ rw e (e, c)
]
Chosen-step now region p ps (some q) c = elim (Bool-cases (is_eligible now region p)) [
  | inl e ↦
      let P : ProxyRecord → Type 0 =
        λ x. (is_eligible now region x ≡ true) × Among x (p ∷ ps) × Beats now region x (p ∷ ps) in
      rw e (elim (faster-cases p q) [
        | inl (s, l) ↦
            subst P s (e, inl refl, (inr (omega arith), Beats-from now region p q ps l c.2))
        | inr (s, l) ↦ subst P s (c.0, inr c.1, (inr l, c.2))
      ])
  | inr e ↦ rw e (c.0, inr c.1, (inl e, c.2))
]

-- The proxy that is chosen is one of the list and may be chosen (it has not expired, has capacity
-- and, where a region is asked for, names no region), and no other such candidate is faster; none
-- is chosen only if there is no such candidate.
pub select_proxy-Chosen :
    (now : ℕ) (region : Option String) (ps : List ProxyRecord)
    → Chosen now region ps (select_proxy now region ps)
unfolding select_proxy
select_proxy-Chosen now region [] = tt
select_proxy-Chosen now region (p ∷ ps) =
    Chosen-step now region p ps (select_proxy now region ps) (select_proxy-Chosen now region ps)
