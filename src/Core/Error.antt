-- ===== src/Core/Error.antt =====
-- The errors of the core, crates/voip-core/src/error.rs. Their texts are left out.
use three_pillars_voip.Base.{ℕ, ◌≡◌, refl, Bool, true, false, ◌&&◌, ◌||◌}
use three_pillars_voip.Core.Types.CallEndReason.{CallEndReason, should_retry}

pub data VoipError : Type 0 where
  quic_connection_failed quic_handshake_timeout migration_failed : VoipError
  nat_probe_failed nat_random_both_sides udp_blocked tcp_blocked : VoipError
  masque_proxy_unreachable masque_tunnel_failed masque_tunnel_disconnected masque_no_proxy
        proxy_token_invalid :
      VoipError
  signaling_error jwt_auth_failed rate_limited peer_not_found peer_offline : VoipError
  invalid_transition call_already_exists : VoipError
  dht_lookup_failed dht_record_verification_failed : VoipError
  signature_verification_failed invalid_key_material internal : VoipError

unfoldable pub to_call_end_reason : VoipError → CallEndReason
to_call_end_reason quic_connection_failed = CallEndReason.failed_network
to_call_end_reason quic_handshake_timeout = CallEndReason.timeout
to_call_end_reason migration_failed = CallEndReason.migration_failed
to_call_end_reason nat_probe_failed = CallEndReason.failed_network
to_call_end_reason nat_random_both_sides = CallEndReason.failed_ipv4_random
to_call_end_reason udp_blocked = CallEndReason.failed_udp_blocked
to_call_end_reason tcp_blocked = CallEndReason.failed_tcp_blocked
to_call_end_reason masque_proxy_unreachable = CallEndReason.failed_masque_unreachable
to_call_end_reason masque_tunnel_failed = CallEndReason.failed_masque_unreachable
to_call_end_reason masque_tunnel_disconnected = CallEndReason.failed_masque_unreachable
to_call_end_reason masque_no_proxy = CallEndReason.failed_masque_unreachable
to_call_end_reason proxy_token_invalid = CallEndReason.failed_masque_unreachable
to_call_end_reason peer_offline = CallEndReason.timeout
to_call_end_reason _ = CallEndReason.failed_network

unfoldable pub to_error_code : VoipError → ℕ
to_error_code peer_not_found = 1001
to_error_code peer_offline = 1002
to_error_code call_already_exists = 1004
to_error_code rate_limited = 2001
to_error_code jwt_auth_failed = 2002
to_error_code signaling_error = 2003
to_error_code masque_no_proxy = 3001
to_error_code masque_proxy_unreachable = 3002
to_error_code proxy_token_invalid = 3003
to_error_code _ = 9999

unfoldable pub is_recoverable : VoipError → Bool
is_recoverable quic_handshake_timeout = true
is_recoverable nat_probe_failed = true
is_recoverable dht_lookup_failed = true
is_recoverable signaling_error = true
is_recoverable _ = false

unfoldable pub is_migratable : VoipError → Bool
is_migratable migration_failed = true
is_migratable masque_tunnel_disconnected = true
is_migratable _ = false

unfoldable pub is_fatal : VoipError → Bool
is_fatal nat_random_both_sides = true
is_fatal udp_blocked = true
is_fatal tcp_blocked = true
is_fatal masque_no_proxy = true
is_fatal peer_not_found = true
is_fatal signature_verification_failed = true
is_fatal dht_record_verification_failed = true
is_fatal _ = false

unfoldable pub should_push_retry : VoipError → Bool
should_push_retry nat_random_both_sides = true
should_push_retry masque_proxy_unreachable = true
should_push_retry _ = false

-- The errors for which a push retry is due by the reason that they end a call with, and not by
-- themselves.
unfoldable pub retried_by_reason : VoipError → Bool
retried_by_reason masque_tunnel_failed = true
retried_by_reason masque_tunnel_disconnected = true
retried_by_reason masque_no_proxy = true
retried_by_reason proxy_token_invalid = true
retried_by_reason _ = false

-- The two tests for a push retry, on an error and on the reason that it ends a call with, differ on
-- exactly four errors of the relay, for which only the reason asks for a retry.
pub should_retry-to_call_end_reason :
    (e : VoipError)
    → (should_retry (to_call_end_reason e) ≡ (should_push_retry e || retried_by_reason e))
      × (should_push_retry e && retried_by_reason e ≡ false)
unfolding to_call_end_reason should_push_retry should_retry retried_by_reason
should_retry-to_call_end_reason nat_random_both_sides = (refl, refl)
should_retry-to_call_end_reason _ = (refl, refl)

-- The three ways of handling an error exclude one another.
pub is_fatal-is_recoverable-is_migratable :
    (e : VoipError)
    → (is_fatal e && is_recoverable e ≡ false)
      × ((is_fatal e && is_migratable e ≡ false) × (is_recoverable e && is_migratable e ≡ false))
unfolding is_fatal is_recoverable is_migratable
is_fatal-is_recoverable-is_migratable udp_blocked = (refl, (refl, refl))
is_fatal-is_recoverable-is_migratable _ = (refl, (refl, refl))
