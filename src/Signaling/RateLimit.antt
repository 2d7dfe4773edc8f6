-- ===== src/Signaling/RateLimit.antt =====
-- The token buckets of crates/voip-signaling/src/rate_limit.rs. An instant is a number of
-- nanoseconds, and the instant of a call is an argument. A bucket's tokens are whole numbers: the
-- `f64` of the source holds them exactly, for it never exceeds a `u32`. `none` is the panic of a
-- division by a refill interval of 0.
pub mod Buckets
pub mod Rate
pub mod Cleanup
use three_pillars_voip.Base.{
  ℕ, Bool, true, false, if◌then◌else◌, Option, none, some, ◌>>=◌, String, List, [], ◌∷◌, length,
  ltb, ◌*◌, ◌%◌, u64_mod,
}
use three_pillars_voip.Base.Maps.{StringMap, lookup, insert, remove, retain}
use Buckets.{BucketConfig, Bucket, new_bucket, try_consume, elapsed_ms}

pub record RateLimitConfig : Type 0 where
  pub calls : BucketConfig
  pub registrations : BucketConfig
  pub ws_messages : BucketConfig
  pub max_entries : ℕ

abbrev pub default : RateLimitConfig
default = record {
  calls = record { max_tokens = 10; refill_amount = 10; refill_interval_ms = 60000 };
  registrations = record { max_tokens = 6; refill_amount = 6; refill_interval_ms = 60000 };
  ws_messages = record { max_tokens = 30; refill_amount = 30; refill_interval_ms = 1000 };
  max_entries = 50000;
}

pub record RateLimiter : Type 0 where
  pub calls : StringMap Bucket
  pub registrations : StringMap Bucket
  pub ws_messages : StringMap Bucket
  pub config : RateLimitConfig
  pub max_entries : ℕ

abbrev pub new : RateLimitConfig → RateLimiter
new config = record {
  calls = [];
  registrations = [];
  ws_messages = [];
  config = config;
  max_entries = config.max_entries;
}

pub data Action : Type 0 where
  call registration ws_message : Action

abbrev or_new : BucketConfig → ℕ → Option Bucket → Bucket
or_new config now none = new_bucket config now
or_new config now (some b) = b

-- `entry(peer).or_insert_with(…)`.
unfoldable pub entry : BucketConfig → ℕ → String → StringMap Bucket → Bucket
entry config now peer m = or_new config now (lookup peer m)

-- The check on one of the three maps.
unfoldable pub check_map :
    BucketConfig → ℕ → String → StringMap Bucket → Option (StringMap Bucket × Bool)
unfolding entry
check_map config now peer m = do
  (bucket, allowed) ← try_consume now 1 (entry config now peer m)
  some (insert peer bucket m, allowed)

check_call : ℕ → String → RateLimiter → Option (RateLimiter × Bool)
check_call now peer r = do
  (m, allowed) ← check_map r.config.calls now peer r.calls
  some (record r { calls = m }, allowed)

unfoldable pub check_registration : ℕ → String → RateLimiter → Option (RateLimiter × Bool)
check_registration now peer r = do
  (m, allowed) ← check_map r.config.registrations now peer r.registrations
  some (record r { registrations = m }, allowed)

check_ws_message : ℕ → String → RateLimiter → Option (RateLimiter × Bool)
check_ws_message now peer r = do
  (m, allowed) ← check_map r.config.ws_messages now peer r.ws_messages
  some (record r { ws_messages = m }, allowed)

unfoldable pub check : ℕ → String → Action → RateLimiter → Option (RateLimiter × Bool)
unfolding check_call check_registration check_ws_message
check now peer call r = check_call now peer r
check now peer registration r = check_registration now peer r
check now peer ws_message r = check_ws_message now peer r

pub remove_peer : String → RateLimiter → RateLimiter
remove_peer peer r = record r {
  calls = remove peer r.calls;
  registrations = remove peer r.registrations;
  ws_messages = remove peer r.ws_messages;
}

-- Fewer than two refill intervals have passed since the last refill; the product is a `u64`.
pub is_recent : ℕ → Bucket → Bool
is_recent now b = ltb (elapsed_ms now b.last_refill) (b.config.refill_interval_ms * 2 % u64_mod)

-- `while map.len() > max`: the next key in the map's order goes.
pub evict_overflow : ℕ → StringMap Bucket → StringMap Bucket
evict_overflow max [] = []
evict_overflow max (e ∷ m) =
    let rest = evict_overflow max m in if ltb max (length (e ∷ m)) then rest else e ∷ m

pub cleanup_map : ℕ → ℕ → StringMap Bucket → StringMap Bucket
unfolding is_recent evict_overflow
cleanup_map now max m = evict_overflow max (retain (is_recent now) m)

pub cleanup : ℕ → RateLimiter → RateLimiter
unfolding cleanup_map
cleanup now r =
    let max = r.config.max_entries in
    record r {
      calls = cleanup_map now max r.calls;
      registrations = cleanup_map now max r.registrations;
      ws_messages = cleanup_map now max r.ws_messages;
    }
