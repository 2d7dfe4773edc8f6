-- ===== src/Core/Types/NatType.antt =====
-- `NATType` of crates/voip-core/src/types.rs and its conversions from and to the generated type.
use three_pillars_voip.Base.{◌≡◌, refl, Bool, true, false}
use three_pillars_voip.Core.Proto
use three_pillars_voip.Core.Proto.{
  nat_none, nat_cone, nat_symmetric_sequential, nat_symmetric_pseudo, nat_symmetric_random,
}

pub data NatType : Type 0 where
  none cone symmetric_sequential symmetric_pseudo symmetric_random : NatType

pub from_proto : Proto.NatType → NatType
from_proto nat_none = none
from_proto nat_cone = cone
from_proto nat_symmetric_sequential = symmetric_sequential
from_proto nat_symmetric_pseudo = symmetric_pseudo
from_proto nat_symmetric_random = symmetric_random

pub to_proto : NatType → Proto.NatType
to_proto none = nat_none
to_proto cone = nat_cone
to_proto symmetric_sequential = nat_symmetric_sequential
to_proto symmetric_pseudo = nat_symmetric_pseudo
to_proto symmetric_random = nat_symmetric_random

unfoldable pub is_predictable : NatType → Bool
is_predictable symmetric_sequential = true
is_predictable symmetric_pseudo = true
is_predictable _ = false

pub is_no_nat : NatType → Bool
is_no_nat none = true
is_no_nat _ = false

pub from_proto-to_proto : (x : NatType) → from_proto (to_proto x) ≡ x
unfolding from_proto to_proto
from_proto-to_proto none = refl
from_proto-to_proto _ = refl

pub to_proto-from_proto : (p : Proto.NatType) → to_proto (from_proto p) ≡ p
unfolding from_proto to_proto
to_proto-from_proto nat_none = refl
to_proto-from_proto _ = refl
