-- ===== src/Core/Types/ProbeMethod.antt =====
-- `ProbeMethod` of crates/voip-core/src/types.rs and its conversions from and to the generated type.
use three_pillars_voip.Base.{◌≡◌, refl}
use three_pillars_voip.Core.Proto

pub data ProbeMethod : Type 0 where
  quic_path_probing : ProbeMethod

pub from_proto : Proto.ProbeMethod → ProbeMethod
from_proto Proto.ProbeMethod.quic_path_probing = quic_path_probing

pub to_proto : ProbeMethod → Proto.ProbeMethod
to_proto quic_path_probing = Proto.ProbeMethod.quic_path_probing

pub from_proto-to_proto : (x : ProbeMethod) → from_proto (to_proto x) ≡ x
unfolding from_proto to_proto
from_proto-to_proto quic_path_probing = refl

pub to_proto-from_proto : (p : Proto.ProbeMethod) → to_proto (from_proto p) ≡ p
unfolding from_proto to_proto
to_proto-from_proto Proto.ProbeMethod.quic_path_probing = refl
