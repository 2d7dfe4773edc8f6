-- ===== src/Core/Config/Bounds.antt =====
-- The computed settings of crates/voip-core/src/config.rs: retry delays and predicted port ranges.
use three_pillars_voip.Base.{
  ℕ, zero, suc, ◌+◌, ◌-◌, ◌*◌, ◌^◌, ◌%◌, ◌≤◌, ◌<◌, ◌≡◌, ◌↔◌, arith, u64_mod,
}
use three_pillars_voip.Core.Config.{
  VoipConfig, retry_delay_secs, sequential_prediction_range, pseudo_prediction_range,
}

-- A port lies in the predicted range of a sequential NAT exactly when it is at most the configured
-- margin away from the base port and from 1024 to 65535, for a base port that is a `u16`.
pub sequential_prediction_range_iff :
    (c : VoipConfig) (base p : ℕ)
    → base < 65536
    → let (start, end) = sequential_prediction_range c base in
      ((start ≤ p) × (p ≤ end)) ↔ (
        (1024 ≤ p)
        × (p < 65536)
        × (base ≤ p + c.prediction_margin_sequential)
        × (p ≤ base + c.prediction_margin_sequential))
unfolding sequential_prediction_range
sequential_prediction_range_iff c base p b = (λ h. omega arith, λ h. omega arith)

-- The same for a pseudo-sequential NAT, with its own margin.
pub pseudo_prediction_range_iff :
    (c : VoipConfig) (base p : ℕ)
    → base < 65536
    → let (start, end) = pseudo_prediction_range c base in
      ((start ≤ p) × (p ≤ end)) ↔ (
        (1024 ≤ p)
        × (p < 65536)
        × (base ≤ p + c.prediction_margin_pseudo)
        × (p ≤ base + c.prediction_margin_pseudo))
unfolding pseudo_prediction_range
pseudo_prediction_range_iff c base p b = (λ h. omega arith, λ h. omega arith)

mul_within : (a p : ℕ) → a * p < u64_mod → a * (p % u64_mod) % u64_mod ≡ a * p
mul_within zero p h = omega arith
mul_within (suc a) p h =
    let small : p < u64_mod = grind arith in
    let e : p % u64_mod ≡ p = omega arith in rw e (omega arith)

-- Below the width of a `u64` the delay of the attempt n + 1 is the initial delay times the n-th
-- power of the multiplier.
pub retry_delay_closed :
    (c : VoipConfig) (n : ℕ)
    → c.push_retry_initial_delay_secs * c.push_retry_backoff_multiplier ^ n < u64_mod
    → retry_delay_secs c (suc n)
      ≡ c.push_retry_initial_delay_secs * c.push_retry_backoff_multiplier ^ n
unfolding retry_delay_secs
retry_delay_closed c n b =
    let e : suc n - 1 ≡ n = omega arith in
    ground (arith, mul_within c.push_retry_initial_delay_secs (c.push_retry_backoff_multiplier ^ n))
