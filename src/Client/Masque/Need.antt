-- ===== src/Client/Masque/Need.antt =====
-- `detect_masque_need` of crates/voip-client/src/masque.rs.
use three_pillars_voip.Base.{arith, ◌≡◌, Bool, true, false, ◌||◌, ◌&&◌, if◌then◌else◌}
use three_pillars_voip.Core.Types.NatType.{NatType, none, cone, symmetric_random, is_predictable}
use three_pillars_voip.Signaling.Server.Masque

abbrev is_random : NatType → Bool
is_random symmetric_random = true
is_random _ = false

abbrev is_cone : NatType → Bool
is_cone cone = true
is_cone _ = false

abbrev is_none : NatType → Bool
is_none none = true
is_none _ = false

pub detect_masque_need : NatType → NatType → Bool → Bool
unfolding is_predictable
detect_masque_need local_nat_type peer_nat_type udp_blocked =
    if udp_blocked
    then true
    else if is_random local_nat_type && is_random peer_nat_type
    then true
    else if is_none local_nat_type || is_none peer_nat_type
    then false
    else if is_cone local_nat_type || is_cone peer_nat_type
    then false
    else if is_predictable local_nat_type || is_predictable peer_nat_type
    then false
    else true

-- The client and the signaling server decide alike whether a call needs a relay, for all NAT types.
pub detect_masque_need-server :
    (local_nat_type peer_nat_type : NatType) (udp_blocked : Bool)
    → detect_masque_need local_nat_type peer_nat_type udp_blocked
      ≡ Masque.detect_masque_need local_nat_type peer_nat_type udp_blocked
unfolding detect_masque_need Masque.detect_masque_need is_predictable
detect_masque_need-server l p b = ground arith
