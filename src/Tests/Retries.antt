-- ===== src/Tests/Retries.antt =====
-- Push retries and computed settings with the default configuration.
use three_pillars_voip.Base.{◌≡◌, refl, some, List, [], ◌∷◌}
use three_pillars_voip.Core.Config.{default}
use three_pillars_voip.Core.Types.CallEndReason.{failed_ipv4_random, should_retry}
use three_pillars_voip.Client.PushRetry.{RetryScheduler, new, Op, schedule_op, cancel_op, step}
use three_pillars_voip.Client.PushRetry.Backoff.{granted}

abbrev after_one : RetryScheduler
after_one = record (new default) {
  handler = record { config = default; retry_count = 1; last_retry = some 7 };
}

abbrev attempts : List Op
attempts =
    schedule_op 1 "call" "peer" failed_ipv4_random
    ∷ cancel_op
    ∷ schedule_op 2 "call" "peer" failed_ipv4_random
    ∷ schedule_op 3 "call" "peer" failed_ipv4_random
    ∷ schedule_op 4 "call" "peer" failed_ipv4_random
    ∷ []

granted_three : granted (new default) attempts ≡ 3
unfolding granted step should_retry
granted_three = refl
