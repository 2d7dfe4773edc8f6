-- ===== src/Client/PushRetry.antt =====
-- Push retries with exponential backoff, crates/voip-client/src/push_retry.rs. The time of a call
-- is an argument; the runtime's task is what its closure captures.
pub mod Backoff
use three_pillars_voip.Base.{
  ℕ, ◌+◌, ◌*◌, ◌%◌, Bool, true, false, not, Option, none, some, String, List, [], ◌∷◌, ltb,
  if◌then◌else◌, u32_mod, u64_mod,
}
use three_pillars_voip.Base.Int.{ℤ}
use three_pillars_voip.Core.Config.{VoipConfig, retry_delay_secs}
use three_pillars_voip.Core.Types.CallEndReason.{CallEndReason, should_retry, as_i32}

pub record PushRetryHandler : Type 0 where
  pub config : VoipConfig
  pub retry_count : ℕ
  pub last_retry : Option ℕ

-- The generated message of proto/signaling.proto.
pub record PushRetryMessage : Type 0 where
  pub call_id : String
  pub caller_id : String
  pub callee_id : String
  pub reason : ℤ
  pub retry_attempt : ℕ
  pub retry_after_ms : ℕ

abbrev pub new_handler : VoipConfig → PushRetryHandler
new_handler config = record { config = config; retry_count = 0; last_retry = none }

pub can_retry : PushRetryHandler → Bool
can_retry h = ltb h.retry_count h.config.push_retry_max_attempts

-- In seconds.
next_retry_delay : PushRetryHandler → ℕ
next_retry_delay h = retry_delay_secs h.config ((h.retry_count + 1) % u32_mod)

record_retry : ℕ → PushRetryHandler → PushRetryHandler
record_retry now h = record h { last_retry = some now; retry_count = (h.retry_count + 1) % u32_mod }

create_push_retry_message : PushRetryHandler → String → String → CallEndReason → PushRetryMessage
unfolding next_retry_delay
create_push_retry_message h call_id peer_id reason = record {
  call_id = call_id;
  caller_id = "";
  callee_id = peer_id;
  reason = as_i32 reason;
  retry_attempt = (h.retry_count + 1) % u32_mod;
  retry_after_ms = next_retry_delay h * 1000 % u64_mod;
}

reset_handler : PushRetryHandler → PushRetryHandler
reset_handler h = record h { retry_count = 0; last_retry = none }

-- What the spawned task captures: how long it sleeps, and what it then reports.
pub record RetryTask : Type 0 where
  pub delay_secs : ℕ
  pub attempt : ℕ
  pub call_id : String
  pub peer_id : String

pub record RetryScheduler : Type 0 where
  pub handler : PushRetryHandler
  pub retry_task : Option RetryTask

abbrev pub new : VoipConfig → RetryScheduler
new config = record { handler = new_handler config; retry_task = none }

-- The errors of `schedule_retry`; the last one's text names the reason.
pub data ScheduleError : Type 0 where
  retry_disabled attempts_exhausted : ScheduleError
  not_warranted : CallEndReason → ScheduleError

pub cancel : RetryScheduler → RetryScheduler
cancel s = record s { retry_task = none }

-- `none` is `Ok(())`. The message that the source builds here is not sent, so it is left out.
unfoldable pub schedule_retry :
    ℕ → String → String → CallEndReason → RetryScheduler → RetryScheduler × Option ScheduleError
unfolding can_retry next_retry_delay record_retry cancel
schedule_retry now call_id peer_id reason s =
    if not s.handler.config.push_retry_enabled
    then (s, some retry_disabled)
    else if not (can_retry s.handler)
    then (s, some attempts_exhausted)
    else if not (should_retry reason)
    then (s, some (not_warranted reason))
    else let s' = cancel s in
      let task : RetryTask = record {
        delay_secs = next_retry_delay s'.handler;
        attempt = (s'.handler.retry_count + 1) % u32_mod;
        call_id = call_id;
        peer_id = peer_id;
      } in
      (record s' { handler = record_retry now s'.handler; retry_task = some task }, none)

-- Dropping the scheduler cancels too.
pub reset : RetryScheduler → RetryScheduler
unfolding cancel reset_handler
reset s = let s' = cancel s in record s' { handler = reset_handler s'.handler }

-- A call of one of the scheduler's methods.
pub data Op : Type 0 where
  schedule_op : (now : ℕ) (call_id peer_id : String) → CallEndReason → Op
  cancel_op reset_op : Op

unfoldable pub step : RetryScheduler → Op → RetryScheduler × Option ScheduleError
unfolding schedule_retry cancel reset
step s (schedule_op now call_id peer_id reason) = schedule_retry now call_id peer_id reason s
step s cancel_op = (cancel s, none)
step s reset_op = (reset s, none)
