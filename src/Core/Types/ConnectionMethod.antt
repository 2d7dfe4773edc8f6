-- ===== src/Core/Types/ConnectionMethod.antt =====
-- `ConnectionMethod` of crates/voip-core/src/types.rs and its conversions from and to the generated type.
use three_pillars_voip.Base.{◌≡◌, refl, Bool, true, false, String}
use three_pillars_voip.Core.Proto
use three_pillars_voip.Core.Proto.{
  conn_none, conn_ipv6_direct, conn_ipv4_cone, conn_ipv4_prediction, conn_masque, conn_masque_http2,
}

pub data ConnectionMethod : Type 0 where
  none ipv6_direct ipv4_cone ipv4_prediction masque masque_http2 : ConnectionMethod

pub from_proto : Proto.ConnectionMethod → ConnectionMethod
from_proto conn_none = none
from_proto conn_ipv6_direct = ipv6_direct
from_proto conn_ipv4_cone = ipv4_cone
from_proto conn_ipv4_prediction = ipv4_prediction
from_proto conn_masque = masque
from_proto conn_masque_http2 = masque_http2

pub to_proto : ConnectionMethod → Proto.ConnectionMethod
to_proto none = conn_none
to_proto ipv6_direct = conn_ipv6_direct
to_proto ipv4_cone = conn_ipv4_cone
to_proto ipv4_prediction = conn_ipv4_prediction
to_proto masque = conn_masque
to_proto masque_http2 = conn_masque_http2

pub label : ConnectionMethod → String
label none = "Not Connected"
label ipv6_direct = "IPv6 Direct"
label ipv4_cone = "QUIC Simultaneous Open"
label ipv4_prediction = "QUIC Port Prediction"
label masque = "MASQUE/HTTP3"
label masque_http2 = "MASQUE/HTTP2"

pub is_direct : ConnectionMethod → Bool
is_direct ipv6_direct = true
is_direct ipv4_cone = true
is_direct ipv4_prediction = true
is_direct _ = false

pub is_relayed : ConnectionMethod → Bool
is_relayed masque = true
is_relayed masque_http2 = true
is_relayed _ = false

pub from_proto-to_proto : (x : ConnectionMethod) → from_proto (to_proto x) ≡ x
unfolding from_proto to_proto
from_proto-to_proto none = refl
from_proto-to_proto _ = refl

pub to_proto-from_proto : (p : Proto.ConnectionMethod) → to_proto (from_proto p) ≡ p
unfolding from_proto to_proto
to_proto-from_proto conn_none = refl
to_proto-from_proto _ = refl
