-- ===== src/Signaling/Errors.antt =====
-- The errors of the signaling server, crates/voip-signaling/src/error.rs: what each says, its code
-- on the wire and its HTTP status.
use Prim.Native.String.{◌++◌}
use three_pillars_voip.Base.{ℕ, String}

-- The codes of the `Error` message.
abbrev pub unknown_peer_code : ℕ
unknown_peer_code = 1001

abbrev pub invalid_call_id_code : ℕ
invalid_call_id_code = 1003

abbrev pub not_call_participant_code : ℕ
not_call_participant_code = 1005

abbrev pub rate_limited_code : ℕ
rate_limited_code = 2001

abbrev pub invalid_message_code : ℕ
invalid_message_code = 2003

pub data SignalingError : Type 0 where
  unknown_peer peer_offline invalid_call_id call_already_exists not_call_participant
        peer_already_registered invalid_jwt invalid_message unauthorized proxy_token_invalid
        proxy_token_expired internal :
      String → SignalingError
  rate_limited masque_no_proxy masque_proxy_timeout masque_coordination_failed : SignalingError

-- The module's `Result`.
pub data Reply (A : Type 0) : Type 0 where
  ok : A → Reply A
  err : SignalingError → Reply A

pub code : SignalingError → ℕ
code (unknown_peer _) = unknown_peer_code
code (peer_offline _) = 1002
code (invalid_call_id _) = invalid_call_id_code
code (call_already_exists _) = 1004
code (not_call_participant _) = not_call_participant_code
code (peer_already_registered _) = 1006
code rate_limited = rate_limited_code
code (invalid_jwt _) = 2002
code (invalid_message _) = invalid_message_code
code (unauthorized _) = 2004
code masque_no_proxy = 3001
code masque_proxy_timeout = 3002
code masque_coordination_failed = 3003
code (proxy_token_invalid _) = 3004
code (proxy_token_expired _) = 3005
code (internal _) = 9999

pub http_status : SignalingError → ℕ
http_status (unknown_peer _) = 404
http_status (peer_offline _) = 404
http_status (invalid_call_id _) = 400
http_status (invalid_message _) = 400
http_status (call_already_exists _) = 409
http_status (peer_already_registered _) = 409
http_status (not_call_participant _) = 403
http_status rate_limited = 429
http_status (invalid_jwt _) = 401
http_status (unauthorized _) = 401
http_status masque_no_proxy = 503
http_status masque_proxy_timeout = 503
http_status masque_coordination_failed = 503
http_status (proxy_token_invalid _) = 400
http_status (proxy_token_expired _) = 401
http_status (internal _) = 500

pub to_string : SignalingError → String
to_string (unknown_peer s) = "unknown peer: " ++ s
to_string (peer_offline s) = "peer offline: " ++ s
to_string (invalid_call_id s) = "invalid call ID: " ++ s
to_string (call_already_exists s) = "call already exists: " ++ s
to_string (not_call_participant s) = "not a call participant: " ++ s
to_string (peer_already_registered s) = "peer already registered: " ++ s
to_string rate_limited = "rate limited"
to_string (invalid_jwt s) = "invalid JWT: " ++ s
to_string (invalid_message s) = "invalid message: " ++ s
to_string (unauthorized s) = "unauthorized: " ++ s
to_string masque_no_proxy = "MASQUE no proxy available"
to_string masque_proxy_timeout = "MASQUE proxy timeout"
to_string masque_coordination_failed = "MASQUE coordination failed"
to_string (proxy_token_invalid s) = "proxy token invalid: " ++ s
to_string (proxy_token_expired s) = "proxy token expired: " ++ s
to_string (internal s) = "internal error: " ++ s
