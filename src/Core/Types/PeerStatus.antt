-- ===== src/Core/Types/PeerStatus.antt =====
-- `PeerStatus` of crates/voip-core/src/types.rs and its conversions from and to the generated type.
use three_pillars_voip.Base.{◌≡◌, refl}
use three_pillars_voip.Core.Proto
use three_pillars_voip.Core.Proto.{peer_online, peer_offline, peer_in_call}

pub data PeerStatus : Type 0 where
  online offline in_call : PeerStatus

pub from_proto : Proto.PeerStatus → PeerStatus
from_proto peer_online = online
from_proto peer_offline = offline
from_proto peer_in_call = in_call

pub to_proto : PeerStatus → Proto.PeerStatus
to_proto online = peer_online
to_proto offline = peer_offline
to_proto in_call = peer_in_call

pub from_proto-to_proto : (x : PeerStatus) → from_proto (to_proto x) ≡ x
unfolding from_proto to_proto
from_proto-to_proto online = refl
from_proto-to_proto _ = refl

pub to_proto-from_proto : (p : Proto.PeerStatus) → to_proto (from_proto p) ≡ p
unfolding from_proto to_proto
to_proto-from_proto peer_online = refl
to_proto-from_proto _ = refl
