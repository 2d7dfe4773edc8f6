-- ===== src/Tests/Calls.antt =====
-- The call state machine of crates/voip-core/src/state.rs on short histories.
use three_pillars_voip.Base.{◌≡◌, ◌↔◌, refl, some, List, [], ◌∷◌, arith}
use three_pillars_voip.Core.Types.ConnectionMethod.{ipv6_direct}
use three_pillars_voip.Core.Types.CallEndReason.{normal, failed_ipv4_random}
use three_pillars_voip.Core.Call.{
  ringing, failed, ended, ok, new, Op, ring_op, accept_op, retry_op, connect_op, end_op, fail_op,
  step, run,
}
use three_pillars_voip.Core.Call.Invariant.{IsValid, new-IsValid, step-IsValid}
use three_pillars_voip.Core.Call.Lifecycle.{Edge, Left, step-ok_iff, rings}

abbrev happy : List Op
happy = ring_op ∷ accept_op ∷ connect_op ipv6_direct ∷ end_op normal ∷ []

abbrev retried : List Op
retried =
    ring_op
    ∷ fail_op failed_ipv4_random
    ∷ retry_op
    ∷ fail_op failed_ipv4_random
    ∷ retry_op
    ∷ fail_op failed_ipv4_random
    ∷ retry_op
    ∷ fail_op failed_ipv4_random
    ∷ retry_op
    ∷ []

happy_ends :
    ((run (new 3) happy).state ≡ ended)
    × ((run (new 3) happy).method ≡ some ipv6_direct)
    × ((run (new 3) happy).end_reason ≡ some normal)
unfolding run step new
happy_ends = (refl, refl, refl)

-- The fourth retry is refused.
retried_fails : ((run (new 3) retried).state ≡ failed) × ((run (new 3) retried).retry_count ≡ 3)
unfolding run step new
retried_fails = (refl, refl)

step-ok_iff_example :
    (((step (new 3) ring_op).1 ≡ ok) × ((step (new 3) ring_op).0.state ≡ ringing))
    ↔ Edge (Left (new 3)) (new 3).state ring_op ringing
step-ok_iff_example = step-ok_iff (new 3) ring_op ringing

step-IsValid_example : IsValid 3 (step (new 3) ring_op).0
step-IsValid_example = step-IsValid 3 (new 3) ring_op (omega arith) (new-IsValid 3)

rings_four : rings (new 3) retried ≡ 4
unfolding rings step new
rings_four = refl
