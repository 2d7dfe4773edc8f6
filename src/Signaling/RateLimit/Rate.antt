-- ===== src/Signaling/RateLimit/Rate.antt =====
-- How many requests a bucket of crates/voip-signaling/src/rate_limit.rs lets through.
use native.Mathlib.Nat.{mul-le-mul_left, div-mul-le_self, le-div_iff_mul-le}
use three_pillars_voip.Base.{
  ℕ, suc, ◌+◌, ◌-◌, ◌*◌, ◌/◌, ◌≤◌, ◌<◌, ◌≡◌, Bool, true, false, none, some, List, [], ◌∷◌, arith,
}
use three_pillars_voip.Signaling.RateLimit.Buckets.{
  BucketConfig, Bucket, new_bucket, elapsed_ms, refilled, spend, try_consume, try_consume_lem,
  IsValid, spend-IsValid, new_bucket-IsValid,
}

-- The requests that pass, out of requests of one token at the given instants.
unfoldable pub passed : Bucket → List ℕ → ℕ
passed b [] = 0
passed b (now ∷ later) = elim (try_consume now 1 b) [
  | none ↦ 0
  | some (b', true) ↦ suc (passed b' later)
  | some (b', false) ↦ passed b' later
]

-- The instants do not go back, from `start` to `end`.
abbrev pub Ordered : ℕ → List ℕ → ℕ → Type 0
Ordered start [] end = start ≤ end
Ordered start (t ∷ ts) end = (start ≤ t) × Ordered t ts end

-- Whole refill intervals between two instants.
abbrev pub intervals : BucketConfig → ℕ → ℕ → ℕ
intervals c start end = (end - start) / 1000000 / c.refill_interval_ms

div-add-le : (a b n k : ℕ) → 0 < k → a + b ≤ n → a / k + b / k ≤ n / k
div-add-le a b n k h l =
    (le-div_iff_mul-le h).1 (grind (arith, div-mul-le_self a k, div-mul-le_self b k))

mul_gain : (r x y z t u : ℕ) → x + y ≤ z → u ≤ t + x * r → u + r * y ≤ t + r * z
mul_gain r x y z t u h k = let m : r * (x + y) ≤ r * z = mul-le-mul_left r h in omega arith

-- Refilling gives no more than the intervals that have passed.
gain :
    (c : BucketConfig) (b : Bucket) (now end : ℕ)
    → 0 < c.refill_interval_ms
    → IsValid c b
    → b.last_refill ≤ now
    → now ≤ end
    → let b' = refilled now b in
      b'.tokens + c.refill_amount * intervals c b'.last_refill end
      ≤ b.tokens + c.refill_amount * intervals c b.last_refill end
unfolding elapsed_ms
gain c b now end h v l g =
    let e = elapsed_ms now b.last_refill in
    let split : e / c.refill_interval_ms + intervals c now end ≤ intervals c b.last_refill end =
      div-add-le e ((end - now) / 1000000) _ c.refill_interval_ms h (omega arith) in
    ground (
      arith,
      mul_gain c.refill_amount (e / c.refill_interval_ms) (intervals c now end)
          (intervals c b.last_refill end) b.tokens (refilled now b).tokens,
    )

Ordered-from : (a t : ℕ) (ts : List ℕ) (end : ℕ) → a ≤ t → Ordered t ts end → Ordered a ts end
Ordered-from a t [] end h o = omega arith
Ordered-from a t (u ∷ ts) end h o = (omega arith, o.1)

Ordered-le : (t : ℕ) (ts : List ℕ) (end : ℕ) → Ordered t ts end → t ≤ end
Ordered-le t [] end o = o
Ordered-le t (u ∷ ts) end o = omega (arith, Ordered-le u ts end o.1)

spend-last : (t : ℕ) (b : Bucket) → b.last_refill ≤ t → (spend 1 (refilled t b)).0.last_refill ≤ t
spend-last t b h = ground arith

-- A request that passes takes a token, and any other leaves the tokens.
abbrev cost : Bool → ℕ
cost true = 1
cost false = 0

spend-cost :
    (b : Bucket)
    → ((spend 1 b).0.tokens + cost (spend 1 b).1 ≡ b.tokens)
      × ((spend 1 b).0.last_refill ≡ b.last_refill)
spend-cost b = ground arith

passed-step :
    (b : Bucket) (t : ℕ) (ts : List ℕ)
    → 0 < b.config.refill_interval_ms
    → passed b (t ∷ ts) ≡ cost (spend 1 (refilled t b)).1 + passed (spend 1 (refilled t b)).0 ts
unfolding passed
passed-step b t ts h = rw (try_consume_lem t 1 b h, passed) (ground arith)

within_step : (p k q t u m i j : ℕ) → p ≡ k + q → t + k ≡ u → q ≤ t + i → u + i ≤ m + j → p ≤ m + j
within_step p k q t u m i j a b c d = omega arith

passed_within :
    (c : BucketConfig) (b : Bucket) (ts : List ℕ) (end : ℕ)
    → 0 < c.refill_interval_ms
    → IsValid c b
    → Ordered b.last_refill ts end
    → passed b ts ≤ b.tokens + c.refill_amount * intervals c b.last_refill end
unfolding passed
passed_within c b [] end h v o = omega arith
passed_within c b (t ∷ ts) end h v o =
    let b' : Bucket = (spend 1 (refilled t b)).0 in
    let o' : Ordered b'.last_refill ts end =
      Ordered-from b'.last_refill t ts end (spend-last t b o.0) o.1 in
    let ih = passed_within c b' ts end h (spend-IsValid c t 1 b v) o' in
    let (paid, kept) = spend-cost (refilled t b) in
    let g = gain c b t end h v o.0 (Ordered-le t ts end o.1) in
    let e : passed b (t ∷ ts) ≡ cost (spend 1 (refilled t b)).1 + passed b' ts =
      passed-step b t ts (rw v.config h) in
    within_step _ _ _ _ _ _ _ _ e paid (rw kept at ih) g

-- Out of any requests of one token on a new bucket, at most the bucket's size and the refill amount
-- for every whole refill interval since its creation pass. The instants do not go back, and the
-- interval is positive.
pub passed-le :
    (c : BucketConfig) (start end : ℕ) (ts : List ℕ)
    → 0 < c.refill_interval_ms
    → Ordered start ts end
    → passed (new_bucket c start) ts ≤ c.max_tokens + c.refill_amount * intervals c start end
passed-le c start end ts h o =
    passed_within c (new_bucket c start) ts end h (new_bucket-IsValid c start) o
