-- ===== src/Core/Call/Lifecycle.antt =====
-- The transitions that the documentation of `CallStateMachine` and of its methods names
-- (crates/voip-core/src/state.rs), and the methods against them.
use three_pillars_voip.Base.{
  ◌<◌, ◌≤◌, ℕ, ◌+◌, ◌≡◌, ◌↔◌, List, [], ◌∷◌, String, arith, refl, u32_mod, suc, subst,
}
use three_pillars_voip.Core.Types.ConnectionMethod.{ConnectionMethod}
use three_pillars_voip.Core.Types.CallEndReason.{CallEndReason}
use three_pillars_voip.Core.Call.{
  CallState, idle, ringing, accepted, connected, failed, ended, TransitionResult, ok, invalid,
  CallStateMachine, new, Op, ring_op, accept_op, reject_op, timeout_op, retry_op, connect_op,
  end_op, fail_op, step, run,
}
use three_pillars_voip.Core.Call.Invariant.{IsValid, new-IsValid, step-IsValid, run-IsValid}

-- An edge of the diagram, with the call that takes it; `left` says that a retry is left.
pub data Edge (left : Type 0) : CallState → Op → CallState → Type 0 where
  ring : Edge left idle ring_op ringing
  accept : Edge left ringing accept_op accepted
  connect : {c : ConnectionMethod} → Edge left accepted (connect_op c) connected
  end : {r : CallEndReason} → Edge left connected (end_op r) ended
  fail_ringing : {r : CallEndReason} → Edge left ringing (fail_op r) failed
  fail_accepted : {r : CallEndReason} → Edge left accepted (fail_op r) failed
  fail_connected : {r : CallEndReason} → Edge left connected (fail_op r) failed
  reject : Edge left ringing reject_op failed
  timeout_ringing : Edge left ringing timeout_op failed
  timeout_accepted : Edge left accepted timeout_op failed
  retry : left → Edge left failed retry_op ringing

ruleset edges = (
  ring, accept, connect, end, fail_ringing, fail_accepted, fail_connected, reject, timeout_ringing,
  timeout_accepted, retry,
)

abbrev pub Left : CallStateMachine → Type 0
Left m = m.retry_count < m.max_retries

step_Edge :
    (m : CallStateMachine) (o : Op) → (step m o).1 ≡ ok → Edge (Left m) m.state o (step m o).0.state
unfolding step
step_Edge m o h = grind (arith, edges)

Edge_step :
    (m : CallStateMachine) (o : Op) {s t : CallState}
    → m.state ≡ s
    → Edge (Left m) s o t
    → ((step m o).1 ≡ ok) × ((step m o).0.state ≡ t)
unfolding step
Edge_step m o e ring = ground arith
Edge_step m o e accept = ground arith
Edge_step m o e connect = ground arith
Edge_step m o e end = ground arith
Edge_step m o e fail_ringing = ground arith
Edge_step m o e fail_accepted = ground arith
Edge_step m o e fail_connected = ground arith
Edge_step m o e reject = ground arith
Edge_step m o e timeout_ringing = ground arith
Edge_step m o e timeout_accepted = ground arith
Edge_step m o e (retry h) = ground arith

-- A call is accepted and leads to a state exactly when the diagram has that edge from the current
-- state; the retry edge is there while fewer retries than the limit are used.
pub step-ok_iff :
    (m : CallStateMachine) (o : Op) (t : CallState)
    → (((step m o).1 ≡ ok) × ((step m o).0.state ≡ t)) ↔ Edge (Left m) m.state o t
step-ok_iff m o t =
    (λ h. subst (Edge (Left m) m.state o) h.1 (step_Edge m o h.0), λ e. Edge_step m o refl e)

-- The state that a call asks for.
abbrev pub target : Op → CallState
target ring_op = ringing
target accept_op = accepted
target (connect_op _) = connected
target (end_op _) = ended
target (retry_op) = ringing
target _ = failed

-- A refused call leaves the whole machine as it was, and names the current state and the state
-- that was asked for.
pub step_refused_unchanged :
    (m : CallStateMachine) (o : Op) {s t : CallState} {reason : String}
    → (step m o).1 ≡ invalid s t reason
    → ((step m o).0 ≡ m) × (s ≡ m.state) × (t ≡ target o)
unfolding step
step_refused_unchanged m o h = ground arith

step_ended : (m : CallStateMachine) (o : Op) → m.state ≡ ended → (step m o).0 ≡ m
unfolding step
step_ended m o h = ground arith

-- Once a call has ended, no history of calls changes anything of the machine.
pub run_ended : (m : CallStateMachine) (os : List Op) → m.state ≡ ended → run m os ≡ m
unfolding run
run_ended m [] h = refl
run_ended m (o ∷ os) h = rw (step_ended m o h) (run_ended m os h)

-- How often a history of calls makes the phone ring.
abbrev pub is_ring : CallStateMachine × TransitionResult → ℕ
is_ring (m, ok) = elim m.state [ ringing ↦ 1 | _ ↦ 0 ]
is_ring (m, invalid _ _ _) = 0

unfoldable pub rings : CallStateMachine → List Op → ℕ
rings m [] = 0
rings m (o ∷ os) = is_ring (step m o) + rings (step m o).0 os

abbrev rung : CallStateMachine → ℕ
rung m = elim m.state [ idle ↦ 0 | _ ↦ suc m.retry_count ]

rung-step :
    (max : ℕ) (m : CallStateMachine) (o : Op)
    → max < u32_mod
    → IsValid max m
    → is_ring (step m o) + rung m ≡ rung (step m o).0
unfolding step
rung-step max m o b v = ground arith

rung-run :
    (max : ℕ) (m : CallStateMachine) (os : List Op)
    → max < u32_mod
    → IsValid max m
    → rings m os + rung m ≡ rung (run m os)
unfolding rings run
rung-run max m [] b v = omega arith
rung-run max m (o ∷ os) b v =
    omega (arith, rung-step max m o b v, rung-run max (step m o).0 os b (step-IsValid max m o b v))

-- In any history of calls on a new machine the phone rings at most once more than the limit of
-- retries, a `u32`, allows.
pub rings-le : (max : ℕ) (os : List Op) → max < u32_mod → rings (new max) os ≤ max + 1
unfolding new
rings-le max os b = ground (
  arith,
  rung-run max (new max) os b (new-IsValid max),
  run-IsValid max (new max) os b (new-IsValid max),
)
