-- ===== src/Core/Call.antt =====
-- The call state machine, crates/voip-core/src/state.rs. A method that mutates the machine
-- returns the new machine beside its result.
pub mod Invariant
pub mod Lifecycle
use three_pillars_voip.Base.{
  ℕ, ◌+◌, ◌%◌, Bool, true, false, Option, none, some, List, [], ◌∷◌, String, leb, u32_mod,
  if◌then◌else◌,
}
use three_pillars_voip.Core.Types.ConnectionMethod.{ConnectionMethod}
use three_pillars_voip.Core.Types.CallEndReason.{CallEndReason}

pub data CallState : Type 0 where
  idle ringing accepted connected failed ended : CallState

pub data TransitionResult : Type 0 where
  ok : TransitionResult
  invalid : (from to : CallState) (reason : String) → TransitionResult

pub record CallStateMachine : Type 0 where
  pub state : CallState
  pub method : Option ConnectionMethod
  pub end_reason : Option CallEndReason
  pub retry_count : ℕ
  pub max_retries : ℕ

unfoldable pub new : ℕ → CallStateMachine
new max_retries = record {
  state = idle;
  method = none;
  end_reason = none;
  retry_count = 0;
  max_retries = max_retries;
}

pub is_terminal : CallStateMachine → Bool
is_terminal m = elim m.state [ failed ↦ true | ended ↦ true | _ ↦ false ]

pub is_connected : CallStateMachine → Bool
is_connected m = elim m.state [ connected ↦ true | _ ↦ false ]

abbrev Transition : Type 0
Transition = CallStateMachine × TransitionResult

ring : CallStateMachine → Transition
ring m = elim m.state [
  | idle ↦ (record m { state = ringing }, ok)
  | s ↦ (m, invalid s ringing "Can only ring from Idle state")
]

accept : CallStateMachine → Transition
accept m = elim m.state [
  | ringing ↦ (record m { state = accepted }, ok)
  | s ↦ (m, invalid s accepted "Can only accept from Ringing state")
]

connect : ConnectionMethod → CallStateMachine → Transition
connect method m = elim m.state [
  | accepted ↦ (record m { state = connected; method = some method }, ok)
  | s ↦ (m, invalid s connected "Can only connect from Accepted state")
]

end_call : CallEndReason → CallStateMachine → Transition
end_call reason m = elim m.state [
  | connected ↦ (record m { state = ended; end_reason = some reason }, ok)
  | s ↦ (m, invalid s ended "Can only end from Connected state")
]

fail : CallEndReason → CallStateMachine → Transition
fail reason m =
    let failing = record m { state = failed; end_reason = some reason } in
    elim m.state [
      | ringing ↦ (failing, ok)
      | accepted ↦ (failing, ok)
      | connected ↦ (failing, ok)
      | idle ↦ (m, invalid idle failed "Cannot fail from Idle state")
      | failed ↦ (m, invalid failed failed "Call has already failed")
      | ended ↦ (m, invalid ended failed "Call has already ended normally")
    ]

reject : CallStateMachine → Transition
reject m = elim m.state [
  | ringing ↦ (record m { state = failed; end_reason = some CallEndReason.rejected }, ok)
  | s ↦ (m, invalid s failed "Can only reject from Ringing state")
]

timeout : CallStateMachine → Transition
timeout m =
    let late = record m { state = failed; end_reason = some CallEndReason.timeout } in
    elim m.state [
      | ringing ↦ (late, ok)
      | accepted ↦ (late, ok)
      | s ↦ (m, invalid s failed "Can only timeout from Ringing or Accepted state")
    ]

retry : CallStateMachine → Transition
retry m = elim m.state [
  | failed ↦
      if leb m.max_retries m.retry_count
      then (m, invalid failed ringing "Max retries exceeded")
      else (
        record m {
          retry_count = (m.retry_count + 1) % u32_mod;
          state = ringing;
          end_reason = none;
        },
        ok,
      )
  | s ↦ (m, invalid s ringing "Can only retry from Failed state")
]

-- A call of one of the transition methods.
pub data Op : Type 0 where
  ring_op accept_op reject_op timeout_op retry_op : Op
  connect_op : ConnectionMethod → Op
  end_op fail_op : CallEndReason → Op

unfoldable pub step : CallStateMachine → Op → CallStateMachine × TransitionResult
unfolding ring accept connect end_call fail reject timeout retry
step m ring_op = ring m
step m accept_op = accept m
step m (connect_op method) = connect method m
step m (end_op reason) = end_call reason m
step m (fail_op reason) = fail reason m
step m reject_op = reject m
step m timeout_op = timeout m
step m retry_op = retry m

-- A history of calls on one machine, and the machine after it.
unfoldable pub run : CallStateMachine → List Op → CallStateMachine
run m [] = m
run m (o ∷ os) = run (step m o).0 os
