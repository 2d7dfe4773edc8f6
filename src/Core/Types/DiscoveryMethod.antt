-- ===== src/Core/Types/DiscoveryMethod.antt =====
-- `DiscoveryMethod` of crates/voip-core/src/types.rs and its conversions from and to the generated type.
use three_pillars_voip.Base.{◌≡◌, refl}
use three_pillars_voip.Core.Proto
use three_pillars_voip.Core.Proto.{discovery_dht, discovery_signaling, discovery_cache}

pub data DiscoveryMethod : Type 0 where
  dht signaling cache : DiscoveryMethod

pub from_proto : Proto.DiscoveryMethod → DiscoveryMethod
from_proto discovery_dht = dht
from_proto discovery_signaling = signaling
from_proto discovery_cache = cache

pub to_proto : DiscoveryMethod → Proto.DiscoveryMethod
to_proto dht = discovery_dht
to_proto signaling = discovery_signaling
to_proto cache = discovery_cache

pub from_proto-to_proto : (x : DiscoveryMethod) → from_proto (to_proto x) ≡ x
unfolding from_proto to_proto
from_proto-to_proto dht = refl
from_proto-to_proto _ = refl

pub to_proto-from_proto : (p : Proto.DiscoveryMethod) → to_proto (from_proto p) ≡ p
unfolding from_proto to_proto
to_proto-from_proto discovery_dht = refl
to_proto-from_proto _ = refl
