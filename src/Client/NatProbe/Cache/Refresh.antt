-- ===== src/Client/NatProbe/Cache/Refresh.antt =====
-- Probing and refreshing, crates/voip-client/src/nat_probe.rs.
use three_pillars_voip.Base.{
  ℕ, ◌+◌, ◌-◌, ◌*◌, ◌%◌, ◌/◌, ◌<◌, ◌≤◌, ◌≡◌, refl, ap, ◌∙◌, true, false, Bool, ◌&&◌, leb, Option,
  none, some, List, [], ◌∷◌, String, length, ltb, ◌||◌, if◌then◌else◌, ◌==◌, Bool-cases,
  Option-cases, inl, inr, arith, u32_mod,
}
use three_pillars_voip.Base.Bytes.{take}
use three_pillars_voip.Client.NatProbe.{NatProbeResult, contains_colon, classify_nat, last_of}
use three_pillars_voip.Client.NatProbe.Cache.{
  NatProber, ok, gather, probe, consistent, cached_nat_info, build_cache,
}
use three_pillars_voip.Client.NatProbe.Cache.Locked.{
  RwLock, read_cached, full_probe, probe_after_drop, extend, judge, compare_with_cache,
  quick_refresh,
}
use three_pillars_voip.Client.NatProbe.Cache.Faithful.{
  UsualMargins, dated, cached_to_nat_info-build_cache,
}

gather_some :
    (path : String → ℕ → Option NatProbeResult) (i : ℕ) (ips : List String) (r : NatProbeResult)
    (rs : List NatProbeResult)
    → gather path i ips ≡ r ∷ rs
    → length ips == 0 ≡ false
unfolding gather
gather_some path i [] r rs h = absurd cc
gather_some path i (ip ∷ ips) r rs h = ground arith

length-gather :
    (path : String → ℕ → Option NatProbeResult) (i : ℕ) (ips : List String)
    → length (gather path i ips) ≤ length ips
unfolding gather
length-gather path i [] = omega arith
length-gather path i (ip ∷ ips) = ground (arith, length-gather path (i + 1) ips)

module _ (probe_single_path : String → ℕ → Option NatProbeResult) where
  abbrev pub probed_paths : NatProber → List NatProbeResult
  probed_paths p =
      gather probe_single_path 0 (take p.config.path_probe_count p.config.signaling_server_ips)

  abbrev pub refreshed_paths : NatProber → List NatProbeResult
  refreshed_paths p =
      gather probe_single_path 0 (take p.config.path_refresh_count p.config.signaling_server_ips)

  probe_concluded :
      (now_secs now_ms : ℕ) (p : NatProber) (r : NatProbeResult) (rs : List NatProbeResult)
      → probed_paths p ≡ r ∷ rs
      → 2 ≤ length rs
      → let info = classify_nat now_secs (r ∷ rs) p.config in
        probe probe_single_path now_secs now_ms p
        ≡ (record p { cache = some (build_cache now_ms (r ∷ rs) info p.config) }, ok info)
  unfolding probe
  probe_concluded now_secs now_ms p r rs e n =
      let ips = take p.config.path_probe_count p.config.signaling_server_ips in
      let f : ltb (length (r ∷ rs)) 3 ≡ false = ground arith in
      rw (gather_some probe_single_path 0 ips r rs e) (rw e (rw f refl))

  -- What a probe of three paths or more finds is what the cache answers with until its time to
  -- live, which is not 0, is over, the time of the last probe in place of the time of the analysis:
  -- where the first address is not of IPv6 and the two margins are those written into the cache's
  -- code.
  pub cached_nat_info-probe :
      (now_secs now_ms later : ℕ) (p : NatProber) (r : NatProbeResult) (rs : List NatProbeResult)
      → probed_paths p ≡ r ∷ rs
      → 2 ≤ length rs
      → contains_colon r.external_ip ≡ false
      → UsualMargins p.config
      → later < now_ms + p.config.nat_cache_ttl_secs % u32_mod * 1000
      → 1 ≤ p.config.nat_cache_ttl_secs % u32_mod
      → let info = classify_nat now_secs (r ∷ rs) p.config in
        let (q, answer) = probe probe_single_path now_secs now_ms p in
        (answer ≡ ok info)
        × (cached_nat_info later q ≡ some (dated ((last_of r rs).timestamp_ms / 1000) info))
  unfolding cached_nat_info build_cache
  cached_nat_info-probe now_secs now_ms later p r rs e n v m t o =
      let fresh : ltb (later - now_ms) (p.config.nat_cache_ttl_secs % u32_mod * 1000) ≡ true =
        ground (arith, t, o) in
      let same = cached_to_nat_info-build_cache now_secs now_ms r rs p.config v m in
      rw (probe_concluded now_secs now_ms p r rs e n) (refl, rw fresh (ap some same))

  -- At least two paths answered, and the cache's pattern is confirmed.
  abbrev pub confirmed : NatProber → Bool
  confirmed p = elim p.cache [
    | none ↦ false
    | some c ↦ leb 2 (length (refreshed_paths p)) && consistent (refreshed_paths p) c p.config
  ]

  full_probe-free :
      (lock : RwLock) (probe_again : String → ℕ → Option NatProbeResult) (now_secs now_ms : ℕ)
      (p : NatProber)
      → full_probe lock probe_single_path probe_again now_secs now_ms (lock.free, p)
        ≡ (let (q, answer) = probe probe_again now_secs now_ms p in some ((lock.free, q), answer))
  unfolding full_probe probe
  full_probe-free lock probe_again now_secs now_ms p =
      ground (arith, lock.write-free, lock.drop_guard-writing)

  extend-reading :
      (lock : RwLock) (probe_again : String → ℕ → Option NatProbeResult) (now_secs now_ms : ℕ)
      (p : NatProber)
      → extend lock probe_single_path probe_again now_secs now_ms (lock.reading, p) ≡ none
  unfolding extend read_cached
  extend-reading lock probe_again now_secs now_ms p =
      ground (arith, lock.drop_guard-reading, lock.write-free, lock.read-writing)

  probe_after_drop-reading :
      (lock : RwLock) (probe_again : String → ℕ → Option NatProbeResult) (now_secs now_ms : ℕ)
      (p : NatProber)
      → probe_after_drop lock probe_single_path probe_again now_secs now_ms (lock.reading, p)
        ≡ (let (q, answer) = probe probe_again now_secs now_ms p in some ((lock.free, q), answer))
  probe_after_drop-reading lock probe_again now_secs now_ms p =
      rw lock.drop_guard-reading (full_probe-free lock probe_again now_secs now_ms p)

  -- Without addresses, or with less than two answers, there is nothing to confirm.
  too_few-confirmed :
      (p : NatProber)
      → let ips = take p.config.path_refresh_count p.config.signaling_server_ips in
        length ips == 0 || ltb (length (gather probe_single_path 0 ips)) 2 ≡ true
        → confirmed p ≡ false
  too_few-confirmed p h =
      let ips = take p.config.path_refresh_count p.config.signaling_server_ips in
      let few = length-gather probe_single_path 0 ips in ground (arith, h, few)

  compare_with_cache-judge :
      (lock : RwLock) (probe_again : String → ℕ → Option NatProbeResult) (now_secs now_ms : ℕ)
      (results : List NatProbeResult) (p : NatProber)
      → compare_with_cache lock probe_single_path probe_again now_secs now_ms results (lock.free, p)
        ≡ judge lock probe_single_path probe_again now_secs now_ms results p (lock.reading, p)
  unfolding compare_with_cache
  compare_with_cache-judge lock probe_again now_secs now_ms results p =
      ground (arith, lock.read-free)

  judge-reading :
      (lock : RwLock) (probe_again : String → ℕ → Option NatProbeResult) (now_secs now_ms : ℕ)
      (p : NatProber)
      → leb 2 (length (refreshed_paths p)) ≡ true
      → judge lock probe_single_path probe_again now_secs now_ms
          (refreshed_paths p)
          p
          (lock.reading, p)
        ≡ (let (q, answer) = probe probe_again now_secs now_ms p in
            if confirmed p then none else some ((lock.free, q), answer))
  judge-reading lock probe_again now_secs now_ms p two =
      let dropped = probe_after_drop-reading lock probe_again now_secs now_ms in
      elim (Option-cases p.cache) [
        | inl e ↦ rw e (dropped (record p { cache = none }))
        | inr (c, e) ↦
            let kept : NatProber = record p { cache = some c } in
            elim (Bool-cases (consistent (refreshed_paths p) c p.config)) [
              | inl same ↦ rw (e, same, two) (extend-reading lock probe_again now_secs now_ms kept)
              | inr other ↦ rw (e, other, two) (dropped kept)
            ]
      ]

  -- A refresh that begins while the lock of the cache is free, and that no other task disturbs,
  -- waits for ever when at least two paths answered and the cache's pattern is confirmed: the case
  -- for which it exists. Otherwise it leaves the lock free and does what a full probe does.
  pub quick_refresh-probe :
      (lock : RwLock) (probe_again : String → ℕ → Option NatProbeResult) (now_secs now_ms : ℕ)
      (p : NatProber)
      → quick_refresh lock probe_single_path probe_again now_secs now_ms (lock.free, p) ≡ (
          let (q, answer) = probe probe_again now_secs now_ms p in
          if confirmed p then none else some ((lock.free, q), answer))
  unfolding quick_refresh
  quick_refresh-probe lock probe_again now_secs now_ms p =
      let ips = take p.config.path_refresh_count p.config.signaling_server_ips in
      let results = gather probe_single_path 0 ips in
      elim (Bool-cases (length ips == 0 || ltb (length results) 2)) [
        | inl few ↦
            rw (few, too_few-confirmed p few) (full_probe-free lock probe_again now_secs now_ms p)
        | inr many ↦ rw many (
            compare_with_cache-judge lock probe_again now_secs now_ms results p
            ∙ judge-reading lock probe_again now_secs now_ms p (ground (arith, many)))
      ]
