-- ===== src/Client/Facade/Calls.antt =====
-- What the library's user can reach, crates/voip-client/src/client.rs.
use three_pillars_voip.Base.{
  ℕ, ◌+◌, ◌≤◌, ◌≡◌, refl, false, List, [], ◌∷◌, arith, if◌then◌else◌, Bool-cases, inl, inr,
}
use three_pillars_voip.Client.Facade.{
  CallState, is_idle, is_incoming, is_connected, ClientInner, Answer, ok, no_active_call, new, mute,
  unmute, accept, reject, Op, init_op, call_op, hangup_op, mute_op, unmute_op, accept_op, reject_op,
  shutdown_op, step,
}
use three_pillars_voip.Core.Config.{VoipConfig}

unfoldable pub run : List Op → ClientInner → ClientInner
run [] c = c
run (op ∷ ops) c = run ops (step op c).0

-- No operation leads to these two.
abbrev pub IsOutside : CallState → Type 0
IsOutside s = (is_incoming s ≡ false) × (is_connected s ≡ false)

step-IsOutside : (op : Op) (c : ClientInner) → IsOutside c.state → IsOutside (step op c).0.state
unfolding step
step-IsOutside init_op c h = h
step-IsOutside (call_op peer_id) c h = elim (Bool-cases (is_idle c.state)) [
  | inl e ↦ rw e (refl, refl)
  | inr e ↦ rw e h
]
step-IsOutside hangup_op c h = elim (Bool-cases (is_idle c.state)) [
  | inl e ↦ rw e h
  | inr e ↦ rw e (refl, refl)
]
step-IsOutside mute_op c h = rw h.1 h
step-IsOutside unmute_op c h = rw h.1 h
step-IsOutside accept_op c h = rw h.0 h
step-IsOutside reject_op c h = rw h.0 h
step-IsOutside shutdown_op c h = (refl, refl)

run-IsOutside : (ops : List Op) (c : ClientInner) → IsOutside c.state → IsOutside (run ops c).state
unfolding run
run-IsOutside [] c h = h
run-IsOutside (op ∷ ops) c h = run-IsOutside ops (step op c).0 (step-IsOutside op c h)

-- No call is ever answered through the library: whatever its user has done, accepting, rejecting,
-- muting and unmuting are refused and change nothing.
pub run-unanswered :
    (config : VoipConfig) (ops : List Op)
    → let c = run ops (new config) in
      ((accept c ≡ (c, no_active_call)) × (reject c ≡ (c, no_active_call)))
      × ((mute c ≡ (c, no_active_call)) × (unmute c ≡ (c, no_active_call)))
unfolding accept reject mute unmute
run-unanswered config ops =
    let (i, c) = run-IsOutside ops (new config) (refl, refl) in
    ((rw i refl, rw i refl), (rw c refl, rw c refl))

abbrev placed : Op → Answer → ℕ
placed (call_op peer_id) ok = 1
placed _ _ = 0

-- The calls that were placed, and the times the client was shut down.
unfoldable pub calls : List Op → ClientInner → ℕ
calls [] c = 0
calls (op ∷ ops) c = let (c', answer) = step op c in placed op answer + calls ops c'

abbrev is_shutdown : Op → ℕ
is_shutdown shutdown_op = 1
is_shutdown _ = 0

unfoldable pub shutdowns : List Op → ℕ
shutdowns [] = 0
shutdowns (op ∷ ops) = is_shutdown op + shutdowns ops

abbrev room : CallState → ℕ
room s = if is_idle s then 1 else 0

step-room :
    (op : Op) (c : ClientInner)
    → let (c', answer) = step op c in
      placed op answer + room c'.state ≤ is_shutdown op + room c.state
unfolding step
step-room init_op c = omega arith
step-room (call_op peer_id) c = elim (Bool-cases (is_idle c.state)) [
  | inl e ↦ rw e (omega arith)
  | inr e ↦ rw e (rw e (omega arith))
]
step-room hangup_op c = ground arith
step-room mute_op c = ground arith
step-room unmute_op c = ground arith
step-room accept_op c = ground arith
step-room reject_op c = ground arith
step-room shutdown_op c = ground arith

calls-room : (ops : List Op) (c : ClientInner) → calls ops c ≤ shutdowns ops + room c.state
unfolding calls shutdowns
calls-room [] c = omega arith
calls-room (op ∷ ops) c =
    let (c', answer) = step op c in omega (arith, step-room op c, calls-room ops c')

-- A client places one call in its life, and one more after each time that it is shut down: hanging up
-- does not make it ready for the next call.
pub calls-shutdowns :
    (config : VoipConfig) (ops : List Op) → calls ops (new config) ≤ 1 + shutdowns ops
calls-shutdowns config ops = omega (arith, calls-room ops (new config))
