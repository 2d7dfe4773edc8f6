-- ===== src/Core/Call/Invariant.antt =====
-- What holds of a call state machine (crates/voip-core/src/state.rs) between two calls.
use three_pillars_voip.Base.{ℕ, ◌≤◌, ◌<◌, ◌≡◌, ◌≢◌, ◌⊎◌, none, List, [], ◌∷◌, arith, u32_mod}
use three_pillars_voip.Core.Call.{
  idle, ringing, accepted, connected, failed, ended, CallStateMachine, new, Op, step, run,
}

pub record IsValid (max : ℕ) (m : CallStateMachine) : Type 0 where
  pub limit : m.max_retries ≡ max
  pub retries_capped : m.retry_count ≤ max
  pub fresh : m.state ≡ idle → (m.retry_count ≡ 0) × (m.method ≡ none)
  pub live_no_reason :
      (m.state ≡ idle) ⊎ (m.state ≡ ringing) ⊎ (m.state ≡ accepted) ⊎ (m.state ≡ connected)
      → m.end_reason ≡ none
  pub over_reason : (m.state ≡ failed) ⊎ (m.state ≡ ended) → m.end_reason ≢ none
  pub joined_method : (m.state ≡ connected) ⊎ (m.state ≡ ended) → m.method ≢ none

pub new-IsValid : (max : ℕ) → IsValid max (new max)
unfolding new
new-IsValid max = ground arith

-- Every call of a transition method, accepted or refused, keeps the machine valid: the limit is
-- what it was built with, the retries stay within it (so the `u32` counter never wraps), an idle
-- machine has neither retried nor connected, a live call has no end reason, a failed or ended
-- one has, and a connected or ended one has a connection method. The limit is a `u32`.
pub step-IsValid :
    (max : ℕ) (m : CallStateMachine) (o : Op)
    → max < u32_mod
    → IsValid max m
    → IsValid max (step m o).0
unfolding step
step-IsValid max m o b v = ground arith

pub run-IsValid :
    (max : ℕ) (m : CallStateMachine) (os : List Op)
    → max < u32_mod
    → IsValid max m
    → IsValid max (run m os)
unfolding run
run-IsValid max m [] b v = v
run-IsValid max m (o ∷ os) b v = run-IsValid max (step m o).0 os b (step-IsValid max m o b v)
