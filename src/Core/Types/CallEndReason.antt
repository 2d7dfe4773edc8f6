-- ===== src/Core/Types/CallEndReason.antt =====
-- `CallEndReason` of crates/voip-core/src/types.rs and its conversions from and to the generated type.
use three_pillars_voip.Base.{◌≡◌, refl, Bool, true, false, String}
use three_pillars_voip.Base.Int.{ℤ, pos}
use three_pillars_voip.Core.Proto
use three_pillars_voip.Core.Proto.{
  end_normal, end_rejected, end_timeout, end_failed_ipv4_random, end_failed_udp_blocked,
  end_failed_network, end_migration_failed, end_failed_masque_unreachable, end_failed_tcp_blocked,
}

pub data CallEndReason : Type 0 where
  normal rejected timeout failed_ipv4_random failed_udp_blocked failed_network migration_failed
        failed_masque_unreachable failed_tcp_blocked :
      CallEndReason

pub from_proto : Proto.CallEndReason → CallEndReason
from_proto end_normal = normal
from_proto end_rejected = rejected
from_proto end_timeout = timeout
from_proto end_failed_ipv4_random = failed_ipv4_random
from_proto end_failed_udp_blocked = failed_udp_blocked
from_proto end_failed_network = failed_network
from_proto end_migration_failed = migration_failed
from_proto end_failed_masque_unreachable = failed_masque_unreachable
from_proto end_failed_tcp_blocked = failed_tcp_blocked

pub to_proto : CallEndReason → Proto.CallEndReason
to_proto normal = end_normal
to_proto rejected = end_rejected
to_proto timeout = end_timeout
to_proto failed_ipv4_random = end_failed_ipv4_random
to_proto failed_udp_blocked = end_failed_udp_blocked
to_proto failed_network = end_failed_network
to_proto migration_failed = end_migration_failed
to_proto failed_masque_unreachable = end_failed_masque_unreachable
to_proto failed_tcp_blocked = end_failed_tcp_blocked

pub description : CallEndReason → String
description normal = "Normal call end"
description rejected = "Call declined"
description timeout = "Connection attempt timed out"
description failed_ipv4_random =
    "Network incompatibility — direct connection not possible. Retry sent."
description failed_udp_blocked = "Network does not allow voice calls — UDP is blocked"
description failed_network = "Call failed — secure connection could not be established"
description migration_failed = "Call dropped — network change failed"
description failed_masque_unreachable = "All MASQUE proxies unreachable"
description failed_tcp_blocked = "UDP blocked AND TCP port 443 blocked — no MASQUE possible"

pub is_failure : CallEndReason → Bool
is_failure normal = false
is_failure rejected = false
is_failure _ = true

-- A push retry is sent only where both networks are hopeless or no proxy is reachable.
unfoldable pub should_retry : CallEndReason → Bool
should_retry failed_ipv4_random = true
should_retry failed_masque_unreachable = true
should_retry _ = false

-- `reason as i32`, by the discriminants of the enumeration.
unfoldable pub as_i32 : CallEndReason → ℤ
as_i32 normal = pos 0
as_i32 rejected = pos 1
as_i32 timeout = pos 2
as_i32 failed_ipv4_random = pos 3
as_i32 failed_udp_blocked = pos 4
as_i32 failed_network = pos 5
as_i32 migration_failed = pos 6
as_i32 failed_masque_unreachable = pos 7
as_i32 failed_tcp_blocked = pos 8

pub from_proto-to_proto : (x : CallEndReason) → from_proto (to_proto x) ≡ x
unfolding from_proto to_proto
from_proto-to_proto normal = refl
from_proto-to_proto _ = refl

pub to_proto-from_proto : (p : Proto.CallEndReason) → to_proto (from_proto p) ≡ p
unfolding from_proto to_proto
to_proto-from_proto end_normal = refl
to_proto-from_proto _ = refl
