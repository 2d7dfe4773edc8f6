-- ===== src/Client/NatProbe/Cache/Locked.antt =====
-- The refresh of crates/voip-client/src/nat_probe.rs, with the lock of the cache.
use three_pillars_voip.Base.{
  ℕ, ◌≡◌, Option, List, none, some, ◌||◌, String, length, ltb, ◌==◌, if◌then◌else◌,
}
use three_pillars_voip.Base.Bytes.{take}
use three_pillars_voip.Core.Types.Nat.{NatInfo, no_nat}
use three_pillars_voip.Client.NatProbe.{NatProbeResult}
use three_pillars_voip.Client.NatProbe.Cache.{
  NatProber, Probed, ok, err, gather, probe, consistent, cached_nat_info,
}

-- `RwLock` of the tokio crate: its guards are granted while the lock is free, none is granted while
-- it is held for writing and no writing while it is held for reading. `none` is a wait until a
-- guard is dropped.
pub record RwLock : Type 1 where
  pub Lock : Type 0
  pub free : Lock
  pub reading : Lock
  pub writing : Lock
  pub read : Lock → Option Lock
  pub write : Lock → Option Lock
  pub drop_guard : Lock → Lock
  pub read-free : read free ≡ some reading
  pub write-free : write free ≡ some writing
  pub read-writing : read writing ≡ none
  pub write-writing : write writing ≡ none
  pub write-reading : write reading ≡ none
  pub drop_guard-reading : drop_guard reading ≡ free
  pub drop_guard-writing : drop_guard writing ≡ free

module _ (lock : RwLock) where
  -- What a task does with the lock and the prober, while no other task has them. It waits for ever,
  -- `none`, when it waits for a guard that it would have to drop itself.
  abbrev pub Task : Type 0 → Type 0
  Task A = lock.Lock × NatProber → Option ((lock.Lock × NatProber) × A)

  infixl 5 ◌>>=◌ ◌>>◌
  abbrev ◌>>=◌ : {A B : Type 0} → Task A → (A → Task B) → Task B
  t >>= f = λ s. elim (t s) [ none ↦ none | some (s', a) ↦ f a s' ]

  abbrev ◌>>◌ : {A B : Type 0} → Task A → Task B → Task B
  t >> u = t >>= (λ _. u)

  abbrev pure : {A : Type 0} → A → Task A
  pure a = λ s. some (s, a)

  abbrev granted : NatProber → Option lock.Lock → Option ((lock.Lock × NatProber) × Unit {0})
  granted p none = none
  granted p (some l) = some ((l, p), tt)

  abbrev read_lock : Task (Unit {0})
  read_lock = λ (l, p). granted p (lock.read l)

  abbrev write_lock : Task (Unit {0})
  write_lock = λ (l, p). granted p (lock.write l)

  abbrev unlock : Task (Unit {0})
  unlock = λ (l, p). some ((lock.drop_guard l, p), tt)

  abbrev get : Task NatProber
  get = λ (l, p). some ((l, p), p)

  abbrev set : NatProber → Task (Unit {0})
  set q = λ (l, p). some ((l, q), tt)

  -- `cached_nat_info` holds its guard while it reads.
  unfoldable pub read_cached : ℕ → Task (Option NatInfo)
  unfolding cached_nat_info
  read_cached now_ms = do read_lock; p ← get; unlock; pure (cached_nat_info now_ms p)

  -- `probe` takes the lock only to store what it found.
  abbrev store : NatProber × Probed → Task Probed
  store (q, ok info) = do write_lock; set q; unlock; pure (ok info)
  store (q, err e) = pure (err e)

  module _ (probe_single_path probe_again : String → ℕ → Option NatProbeResult)
      (now_secs now_ms : ℕ) where
    unfoldable pub full_probe : Task Probed
    unfolding probe
    full_probe = do p ← get; store (probe probe_again now_secs now_ms p)

    abbrev unwrap_or_no_nat : Probed → NatInfo
    unwrap_or_no_nat (ok info) = info
    unwrap_or_no_nat (err e) = no_nat

    abbrev or_probe : Option NatInfo → Task Probed
    or_probe (some info) = do unlock; pure (ok info)
    or_probe none = do unlock; probed ← full_probe; pure (ok (unwrap_or_no_nat probed))

    abbrev stamp : NatProber → NatProber
    stamp p = elim p.cache [
      | none ↦ p
      | some c ↦ record p { cache = some (record c { cache_timestamp = now_ms }) }
    ]

    -- The pattern is as it was: the guard for reading is dropped, and the time is written under one
    -- for writing, which is still held when the cache is read.
    unfoldable pub extend : Task Probed
    unfolding full_probe read_cached
    extend = do unlock; write_lock; p ← get; set (stamp p); info ← read_cached now_ms; or_probe info

    abbrev pub probe_after_drop : Task Probed
    probe_after_drop = do unlock; full_probe

    abbrev pub judge : List NatProbeResult → NatProber → Task Probed
    judge results p = elim p.cache [
      | none ↦ probe_after_drop
      | some c ↦ if consistent results c p.config then extend else probe_after_drop
    ]

    unfoldable pub compare_with_cache : List NatProbeResult → Task Probed
    unfolding full_probe extend
    compare_with_cache results = do read_lock; cached ← get; judge results cached

    -- The two functions are what probing a path gives now, and in a full probe that follows.
    unfoldable pub quick_refresh : Task Probed
    unfolding gather full_probe compare_with_cache
    quick_refresh = do
      p ← get
      (let ips = take p.config.path_refresh_count p.config.signaling_server_ips in
          let results = gather probe_single_path 0 ips in
          if length ips == 0 || ltb (length results) 2
          then full_probe
          else compare_with_cache results)
