-- ===== src/Client/Proxy/Cache/Best.antt =====
-- Which proxy the cache of crates/voip-client/src/proxy.rs chooses.
use text.Mathlib.Text.{◌==◌ as str_eq}
use text.Mathlib.TextEquality.{eq_iff}
use three_pillars_voip.Base.{
  ℕ, ◌≤◌, ◌≡◌, ◌↔◌, ◌⊎◌, refl, sym, ap, ◌∙◌, leb, false, List, [], ◌∷◌, none, some, String, arith,
  inl, inr, Option-cases, Bool-cases, length, subst,
}
use three_pillars_voip.Client.Proxy.Record.{ProxyRecord, find}
use three_pillars_voip.Client.Proxy.Cache.{ProxyCache, is_valid, fastest, last_cached, get_best}

abbrev pub AtMost : ProxyRecord → List ProxyRecord → Type 0
AtMost p [] = Unit {0}
AtMost p (q ∷ qs) = (p.latency_hint_ms ≤ q.latency_hint_ms) × AtMost p qs

-- The record stands in the list.
abbrev pub In : ProxyRecord → List ProxyRecord → Type 0
In p [] = ⊥
In p (q ∷ qs) = (p ≡ q) ⊎ In p qs

AtMost-from :
    (p q : ProxyRecord) (ps : List ProxyRecord)
    → p.latency_hint_ms ≤ q.latency_hint_ms
    → AtMost q ps
    → AtMost p ps
AtMost-from p q [] h a = tt
AtMost-from p q (r ∷ rs) h a = (omega (arith, a.0), AtMost-from p q rs h a.1)

fastest-none : (ps : List ProxyRecord) → fastest ps ≡ none → length ps ≡ 0
unfolding fastest
fastest-none [] e = refl
fastest-none (p ∷ ps) e = ground arith

AtMost-empty : (p : ProxyRecord) (ps : List ProxyRecord) → length ps ≡ 0 → AtMost p ps
AtMost-empty p [] e = tt
AtMost-empty p (q ∷ qs) e = absurd (omega arith)

-- In the list, and no slower than any record of it.
abbrev pub Fastest : ProxyRecord → List ProxyRecord → Type 0
Fastest p ps = In p ps × AtMost p ps

fastest-Fastest : (ps : List ProxyRecord) (p : ProxyRecord) → fastest ps ≡ some p → Fastest p ps
unfolding fastest
fastest-Fastest [] p e = cc
fastest-Fastest (q ∷ qs) p e = elim (Option-cases (fastest qs)) [
  | inl n ↦
      let s : q ≡ p = ground arith in
      subst (λ x. Fastest x (q ∷ qs)) s
        (inl refl, (omega arith, AtMost-empty q qs (fastest-none qs n)))
  | inr (r, n) ↦
      let (m, a) = fastest-Fastest qs r n in
      elim (Bool-cases (leb q.latency_hint_ms r.latency_hint_ms)) [
        | inl l ↦
            let s : q ≡ p = ground arith in
            subst (λ x. Fastest x (q ∷ qs)) s
              (inl refl, (omega arith, AtMost-from q r qs (ground arith) a))
        | inr l ↦
            let s : r ≡ p = ground arith in
            subst (λ x. Fastest x (q ∷ qs)) s (inr m, (ground arith, a))
      ]
]

find-In :
    (url : String) (ps : List ProxyRecord) (p : ProxyRecord)
    → find url ps ≡ some p
    → In p ps × (p.proxy_url ≡ url)
unfolding find
find-In url [] p e = cc
find-In url (q ∷ qs) p e = elim (Bool-cases (str_eq q.proxy_url url)) [
  | inl t ↦ let s : q ≡ p = ground arith in (inl (sym s), ground (arith, eq_iff q.proxy_url url))
  | inr t ↦ let (m, u) = find-In url qs p (ground arith) in (inr m, u)
]

-- None is chosen exactly when the cache is empty or its time to live is over.
get_best-none_iff : (now : ℕ) (c : ProxyCache) → (get_best now c ≡ none) ↔ (is_valid now c ≡ false)
unfolding get_best is_valid
get_best-none_iff now c = (λ h. ground (arith, fastest-none c.proxies), λ h. ground arith)

get_best_last :
    (now : ℕ) (c : ProxyCache) (p q : ProxyRecord)
    → last_cached c ≡ some q
    → get_best now c ≡ some p
    → q ≡ p
unfolding get_best
get_best_last now c p q l e = ground arith

get_best-fastest :
    (now : ℕ) (c : ProxyCache) (p : ProxyRecord)
    → last_cached c ≡ none
    → get_best now c ≡ some p
    → fastest c.proxies ≡ some p
unfolding get_best
get_best-fastest now c p l e = ground arith

last_cached-In :
    (c : ProxyCache) (p : ProxyRecord)
    → last_cached c ≡ some p
    → In p c.proxies × (some p.proxy_url ≡ c.last_used)
last_cached-In c p e = elim (Option-cases c.last_used) [
  | inl n ↦ absurd (ground arith)
  | inr (url, u) ↦ let (m, v) = find-In url c.proxies p (ground arith) in (m, ap some v ∙ sym u)
]

-- The chosen proxy is in the cache, and is either the last one used or, if that is not cached, no
-- slower than any other; none is chosen exactly when the cache is empty or its time to live over.
pub get_best_lem :
    (now : ℕ) (c : ProxyCache)
    → ((get_best now c ≡ none) ↔ (is_valid now c ≡ false))
      × ((p : ProxyRecord)
          → get_best now c ≡ some p
          → In p c.proxies
            × ((some p.proxy_url ≡ c.last_used) ⊎ ((last_cached c ≡ none) × AtMost p c.proxies)))
get_best_lem now c = (
  get_best-none_iff now c,
  λ p e. elim (Option-cases (last_cached c)) [
    | inl n ↦
        let (m, a) = fastest-Fastest c.proxies p (get_best-fastest now c p n e) in (m, inr (n, a))
    | inr (q, l) ↦
        let s : q ≡ p = get_best_last now c p q l e in
        let (m, u) = last_cached-In c p (l ∙ ap some s) in (m, inl u)
  ],
)
