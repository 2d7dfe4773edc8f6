-- ===== src/Client/PushRetry/Backoff.antt =====
-- Which retries crates/voip-client/src/push_retry.rs schedules, and when they fire.
use three_pillars_voip.Base.{
  ℕ, ◌+◌, ◌*◌, ◌^◌, ◌≤◌, ◌<◌, ◌≡◌, ◌⊎◌, ◌↔◌, refl, Bool, true, false, Option, none, some, String,
  List, [], ◌∷◌, arith, u32_mod, u64_mod,
}
use three_pillars_voip.Core.Config.{VoipConfig}
use three_pillars_voip.Core.Config.Bounds.{retry_delay_closed}
use three_pillars_voip.Core.Types.CallEndReason.{CallEndReason, should_retry}
use three_pillars_voip.Client.PushRetry.{
  RetryScheduler, new, ScheduleError, schedule_retry, Op, schedule_op, reset_op, step,
}

-- A retry is scheduled exactly when retries are enabled, fewer than the maximum were made and the
-- reason warrants one; any refusal leaves the scheduler as it was.
pub schedule_retry_iff :
    (now : ℕ) (call_id peer_id : String) (reason : CallEndReason) (s : RetryScheduler)
    → let (t, e) = schedule_retry now call_id peer_id reason s in
      ((e ≡ none) ↔ (
        (s.handler.config.push_retry_enabled ≡ true)
        × (s.handler.retry_count < s.handler.config.push_retry_max_attempts)
        × (should_retry reason ≡ true)))
      × ((e ≡ none) ⊎ (t ≡ s))
unfolding schedule_retry
schedule_retry_iff now call_id peer_id reason s = ground arith

-- A scheduled retry replaces the task before it: the new one sleeps for the initial delay times the
-- multiplier to the power of the retries made before, and counts as one more attempt. The maximum
-- is a `u32` and the delay fits a `u64`.
pub schedule_retry_task :
    (now : ℕ) (call_id peer_id : String) (reason : CallEndReason) (s : RetryScheduler)
    → s.handler.config.push_retry_max_attempts < u32_mod
    → s.handler.config.push_retry_initial_delay_secs
        * s.handler.config.push_retry_backoff_multiplier ^ s.handler.retry_count
      < u64_mod
    → (schedule_retry now call_id peer_id reason s).1 ≡ none
    → let t = (schedule_retry now call_id peer_id reason s).0 in
      let c = s.handler.config in
      let n = s.handler.retry_count in
      (t.retry_task
        ≡ some (record {
          delay_secs = c.push_retry_initial_delay_secs * c.push_retry_backoff_multiplier ^ n;
          attempt = n + 1;
          call_id = call_id;
          peer_id = peer_id;
        }))
      × (t.handler ≡ record s.handler { retry_count = n + 1; last_retry = some now })
unfolding schedule_retry
schedule_retry_task now call_id peer_id reason s bm bd h =
    ground (arith, retry_delay_closed s.handler.config s.handler.retry_count)

abbrev is_grant : Op → Option ScheduleError → ℕ
is_grant (schedule_op _ _ _ _) none = 1
is_grant _ _ = 0

-- The retries scheduled in a history of calls without a reset.
unfoldable pub granted : RetryScheduler → List Op → ℕ
granted s [] = 0
granted s (o ∷ os) = is_grant o (step s o).1 + granted (step s o).0 os

abbrev keeps_count : Op → Bool
keeps_count reset_op = false
keeps_count _ = true

abbrev pub NoReset : List Op → Type 0
NoReset [] = Unit {0}
NoReset (o ∷ os) = (keeps_count o ≡ true) × NoReset os

granted-step :
    (max : ℕ) (s : RetryScheduler) (o : Op)
    → max < u32_mod
    → s.handler.config.push_retry_max_attempts ≡ max
    → s.handler.retry_count ≤ max
    → keeps_count o ≡ true
    → let t = (step s o).0 in
      (t.handler.config ≡ s.handler.config)
      × (t.handler.retry_count ≤ max)
      × (is_grant o (step s o).1 + s.handler.retry_count ≡ t.handler.retry_count)
unfolding step
granted-step max s o b c h k = ground arith

granted-run :
    (max : ℕ) (s : RetryScheduler) (os : List Op)
    → max < u32_mod
    → s.handler.config.push_retry_max_attempts ≡ max
    → s.handler.retry_count ≤ max
    → NoReset os
    → granted s os + s.handler.retry_count ≤ max
unfolding granted
granted-run max s [] b c h k = omega arith
granted-run max s (o ∷ os) b c h k =
    let (e, l, g) = granted-step max s o b c h k.0 in
    let ih = granted-run max (step s o).0 os b (rw e c) l k.1 in omega arith

-- Without a reset a new scheduler schedules no more retries than the configured maximum, in any
-- order of attempts and cancellations. The maximum is a `u32`.
pub granted-le :
    (c : VoipConfig) (os : List Op)
    → c.push_retry_max_attempts < u32_mod
    → NoReset os
    → granted (new c) os ≤ c.push_retry_max_attempts
granted-le c os b k = omega (arith, granted-run _ (new c) os b refl (omega arith) k)
