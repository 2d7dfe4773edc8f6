-- ===== src/Signaling/RateLimit/Buckets.antt =====
-- A single token bucket of crates/voip-signaling/src/rate_limit.rs.
use three_pillars_voip.Base.{
  ℕ, ◌+◌, ◌-◌, ◌*◌, ◌/◌, ◌%◌, ◌≤◌, ◌<◌, ◌≡◌, Bool, true, false, Option, none, some, ◌>>=◌, leb,
  ◌==◌, if◌then◌else◌, min, u64_mod, arith,
}

pub record BucketConfig : Type 0 where
  pub max_tokens : ℕ
  pub refill_amount : ℕ
  pub refill_interval_ms : ℕ

pub record Bucket : Type 0 where
  pub tokens : ℕ
  pub last_refill : ℕ
  pub config : BucketConfig

abbrev pub new_bucket : BucketConfig → ℕ → Bucket
new_bucket config now = record { tokens = config.max_tokens; last_refill = now; config = config }

-- `now.duration_since(since).as_millis() as u64`, which is 0 for a later `since`.
unfoldable pub elapsed_ms : ℕ → ℕ → ℕ
elapsed_ms now since = (now - since) / 1000000 % u64_mod

unfoldable pub refill : ℕ → Bucket → Option Bucket
unfolding elapsed_ms
refill now b =
    let elapsed = elapsed_ms now b.last_refill in
    let interval = b.config.refill_interval_ms in
    if leb interval elapsed
    then if interval == 0
      then none
      else some (record b {
        tokens = min (b.tokens + elapsed / interval * b.config.refill_amount) b.config.max_tokens;
        last_refill = now;
      })
    else some b

unfoldable pub try_consume : ℕ → ℕ → Bucket → Option (Bucket × Bool)
unfolding refill
try_consume now count b = do
  b' ← refill now b
  some (
      if leb count b'.tokens then (record b' { tokens = b'.tokens - count }, true) else (b', false))

-- A bucket of the configuration `c`, not overfull.
pub record IsValid (c : BucketConfig) (b : Bucket) : Type 0 where
  pub config : b.config ≡ c
  pub capped : b.tokens ≤ c.max_tokens

pub new_bucket-IsValid : (c : BucketConfig) (now : ℕ) → IsValid c (new_bucket c now)
new_bucket-IsValid c now = ground arith

-- What `refill` and `try_consume` do where the interval is positive.
abbrev pub refilled : ℕ → Bucket → Bucket
refilled now b =
    let elapsed = elapsed_ms now b.last_refill in
    let interval = b.config.refill_interval_ms in
    if leb interval elapsed
    then record b {
      tokens = min (b.tokens + elapsed / interval * b.config.refill_amount) b.config.max_tokens;
      last_refill = now;
    }
    else b

abbrev pub spend : ℕ → Bucket → Bucket × Bool
spend count b =
    if leb count b.tokens then (record b { tokens = b.tokens - count }, true) else (b, false)

pub try_consume_lem :
    (now count : ℕ) (b : Bucket)
    → 0 < b.config.refill_interval_ms
    → try_consume now count b ≡ some (spend count (refilled now b))
unfolding try_consume
try_consume_lem now count b h = ground arith

pub spend-IsValid :
    (c : BucketConfig) (now count : ℕ) (b : Bucket)
    → IsValid c b
    → IsValid c (spend count (refilled now b)).0
spend-IsValid c now count b v = ground arith
