-- ===== src/Signaling/RateLimit/Cleanup.antt =====
-- What the periodic cleanup of crates/voip-signaling/src/rate_limit.rs drops.
use native.Mathlib.Nat.{le-div_iff_mul-le, mul-le-mul_right}
use text.Mathlib.TextPositions.{eq_refl}
use three_pillars_voip.Base.{
  sym, ap, ◌∙◌, ℕ, ◌-◌, ◌*◌, ◌/◌, ◌≤◌, ◌<◌, ◌≡◌, refl, Bool, false, Option, none, some, [], ◌∷◌,
  inl, inr, Option-cases, Bool-cases, String, length, u64_mod, arith,
}
use three_pillars_voip.Base.Maps.{
  kept, StringMap, lookup, retain, insert, AllValues, Distinct, lookup-retain, length-retain,
  AllValues-retain, lookup-insert, lookup-AllValues,
}
use three_pillars_voip.Signaling.RateLimit.{
  RateLimiter, or_new, entry, is_recent, evict_overflow, cleanup_map, cleanup, check_map,
}
use three_pillars_voip.Signaling.RateLimit.Buckets.{
  BucketConfig, Bucket, new_bucket, elapsed_ms, refilled, spend, try_consume_lem, IsValid,
  new_bucket-IsValid,
}

length-evict_overflow : (max : ℕ) (m : StringMap Bucket) → length (evict_overflow max m) ≤ max
unfolding evict_overflow
length-evict_overflow max [] = omega arith
length-evict_overflow max (e ∷ m) = ground (arith, length-evict_overflow max m)

-- After a cleanup none of the three maps holds more entries than the configured maximum.
pub length-cleanup :
    (now : ℕ) (r : RateLimiter)
    → let r' = cleanup now r in
      (length r'.calls ≤ r.config.max_entries)
      × (length r'.registrations ≤ r.config.max_entries)
      × (length r'.ws_messages ≤ r.config.max_entries)
unfolding cleanup
length-cleanup now r =
    (length-evict_overflow _ _, length-evict_overflow _ _, length-evict_overflow _ _)

evict_overflow_within : (max : ℕ) (m : StringMap Bucket) → length m ≤ max → evict_overflow max m ≡ m
unfolding evict_overflow
evict_overflow_within max [] h = refl
evict_overflow_within max (e ∷ m) h = ground arith

-- A refill after two intervals fills the bucket.
stale_full :
    (c : BucketConfig) (now t : ℕ) (b : Bucket)
    → 0 < c.refill_interval_ms
    → c.refill_interval_ms * 2 < u64_mod
    → c.max_tokens ≤ c.refill_amount * 2
    → IsValid c b
    → is_recent now b ≡ false
    → now ≤ t
    → (t - b.last_refill) / 1000000 < u64_mod
    → refilled t b ≡ new_bucket c t
unfolding is_recent elapsed_ms
stale_full c now t b h w f v s l u =
    let e = (t - b.last_refill) / 1000000 in
    let old : c.refill_interval_ms * 2 ≤ e = ground arith in
    let two : 2 ≤ e / c.refill_interval_ms = (le-div_iff_mul-le h).1 (omega arith) in
    let full : 2 * c.refill_amount ≤ e / c.refill_interval_ms * c.refill_amount =
      mul-le-mul_right c.refill_amount two in
    ground arith

entry-IsValid :
    (c : BucketConfig) (now : ℕ) (peer : String) (m : StringMap Bucket)
    → AllValues (IsValid c) m
    → IsValid c (entry c now peer m)
unfolding entry
entry-IsValid c now peer m a = elim (Option-cases (lookup peer m)) [
  | inl e ↦ rw (e, entry) (new_bucket-IsValid c now)
  | inr (b, e) ↦ rw (e, entry) (lookup-AllValues (IsValid c) peer m a e)
]

check_map_lem :
    (c : BucketConfig) (now : ℕ) (peer : String) (m : StringMap Bucket)
    → 0 < c.refill_interval_ms
    → AllValues (IsValid c) m
    → let s = spend 1 (refilled now (entry c now peer m)) in
      check_map c now peer m ≡ some (insert peer s.0 m, s.1)
unfolding check_map
check_map_lem c now peer m h a =
    let v = entry-IsValid c now peer m a in
    rw (try_consume_lem now 1 (entry c now peer m) (rw v.config h), check_map)

fresh_full :
    (c : BucketConfig) (t : ℕ)
    → 0 < c.refill_interval_ms
    → refilled t (new_bucket c t) ≡ new_bucket c t
unfolding elapsed_ms
fresh_full c t h = ground arith

refilled-kept :
    (c : BucketConfig) (now t : ℕ) (o : Option Bucket)
    → 0 < c.refill_interval_ms
    → c.refill_interval_ms * 2 < u64_mod
    → c.max_tokens ≤ c.refill_amount * 2
    → now ≤ t
    → t / 1000000 < u64_mod
    → IsValid c (or_new c t o)
    → refilled t (or_new c t (kept (is_recent now) o)) ≡ refilled t (or_new c t o)
refilled-kept c now t none h w f l u v = refl
refilled-kept c now t (some b) h w f l u v = elim (Bool-cases (is_recent now b)) [
  | inl e ↦ rw e
  | inr e ↦ rw e (fresh_full c t h ∙ sym (stale_full c now t b h w f v e l (omega arith)))
]

-- What a check decides, and the bucket that it leaves for the peer.
abbrev pub decision : String → Option (StringMap Bucket × Bool) → Option (Option Bucket × Bool)
decision peer none = none
decision peer (some (m, allowed)) = some (lookup peer m, allowed)

abbrev outcome : Bucket → Option (Option Bucket × Bool)
outcome b = let (b', allowed) = spend 1 b in some (some b', allowed)

decision-check_map :
    (c : BucketConfig) (now : ℕ) (peer : String) (m : StringMap Bucket)
    → 0 < c.refill_interval_ms
    → AllValues (IsValid c) m
    → decision peer (check_map c now peer m) ≡ outcome (refilled now (entry c now peer m))
decision-check_map c now peer m h a =
    let b : Bucket = (spend 1 (refilled now (entry c now peer m))).0 in
    rw (check_map_lem c now peer m h a) (rw (lookup-insert peer peer b m) (rw (eq_refl peer)))

-- A cleanup that drops only stale buckets changes no later check of any peer: the check decides the
-- same and leaves the peer the same bucket. The conditions are that a bucket refills in at most two
-- intervals, as the default ones do, that the map is within the maximum, so that no recent bucket
-- goes, and that the clock, in milliseconds, fits a `u64`.
pub check_map-cleanup_map :
    (c : BucketConfig) (now t max : ℕ) (peer : String) (m : StringMap Bucket)
    → 0 < c.refill_interval_ms
    → c.refill_interval_ms * 2 < u64_mod
    → c.max_tokens ≤ c.refill_amount * 2
    → now ≤ t
    → t / 1000000 < u64_mod
    → AllValues (IsValid c) m
    → Distinct m
    → length m ≤ max
    → decision peer (check_map c t peer (cleanup_map now max m))
      ≡ decision peer (check_map c t peer m)
unfolding cleanup_map entry
check_map-cleanup_map c now t max peer m h w f l u a d n =
    let m' = retain (is_recent now) m in
    let clean : cleanup_map now max m ≡ m' =
      evict_overflow_within max m' (omega (arith, length-retain (is_recent now) m)) in
    let same : refilled t (entry c t peer m') ≡ refilled t (entry c t peer m) =
      ap (λ o. refilled t (or_new c t o)) (lookup-retain (is_recent now) peer m d)
      ∙ refilled-kept c now t (lookup peer m) h w f l u (entry-IsValid c t peer m a) in
    rw clean (
      decision-check_map c t peer m' h (AllValues-retain (IsValid c) (is_recent now) m a)
      ∙ ap outcome same
      ∙ sym (decision-check_map c t peer m h a))
