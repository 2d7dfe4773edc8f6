-- ===== src/Core/Types/SubscriptionState.antt =====
-- `SubscriptionState` of crates/voip-core/src/types.rs and its conversions from and to the generated type.
use three_pillars_voip.Base.{◌≡◌, refl}
use three_pillars_voip.Core.Proto
use three_pillars_voip.Core.Proto.{sub_pending, sub_active, sub_paused, sub_ended}

pub data SubscriptionState : Type 0 where
  pending active paused ended : SubscriptionState

pub from_proto : Proto.SubscriptionState → SubscriptionState
from_proto sub_pending = pending
from_proto sub_active = active
from_proto sub_paused = paused
from_proto sub_ended = ended

pub to_proto : SubscriptionState → Proto.SubscriptionState
to_proto pending = sub_pending
to_proto active = sub_active
to_proto paused = sub_paused
to_proto ended = sub_ended

pub from_proto-to_proto : (x : SubscriptionState) → from_proto (to_proto x) ≡ x
unfolding from_proto to_proto
from_proto-to_proto pending = refl
from_proto-to_proto _ = refl

pub to_proto-from_proto : (p : Proto.SubscriptionState) → to_proto (from_proto p) ≡ p
unfolding from_proto to_proto
to_proto-from_proto sub_pending = refl
to_proto-from_proto _ = refl
