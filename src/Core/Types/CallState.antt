-- ===== src/Core/Types/CallState.antt =====
-- `CallState` of crates/voip-core/src/types.rs and its conversions from and to the generated type.
use three_pillars_voip.Base.{◌≡◌, refl}
use three_pillars_voip.Core.Proto
use three_pillars_voip.Core.Proto.{
  call_ringing, call_accepted, call_connected, call_failed, call_ended,
}

pub data CallState : Type 0 where
  ringing accepted connected failed ended : CallState

pub from_proto : Proto.CallState → CallState
from_proto call_ringing = ringing
from_proto call_accepted = accepted
from_proto call_connected = connected
from_proto call_failed = failed
from_proto call_ended = ended

pub to_proto : CallState → Proto.CallState
to_proto ringing = call_ringing
to_proto accepted = call_accepted
to_proto connected = call_connected
to_proto failed = call_failed
to_proto ended = call_ended

pub from_proto-to_proto : (x : CallState) → from_proto (to_proto x) ≡ x
unfolding from_proto to_proto
from_proto-to_proto ringing = refl
from_proto-to_proto _ = refl

pub to_proto-from_proto : (p : Proto.CallState) → to_proto (from_proto p) ≡ p
unfolding from_proto to_proto
to_proto-from_proto call_ringing = refl
to_proto-from_proto _ = refl
