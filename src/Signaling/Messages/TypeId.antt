-- ===== src/Signaling/Messages/TypeId.antt =====
-- The module `type_id` of crates/voip-signaling/src/state.rs.
use three_pillars_voip.Base.{ℕ}

abbrev pub call_request_cs : ℕ
call_request_cs = 0x0001

abbrev pub call_request_sc : ℕ
call_request_sc = 0x0002

abbrev pub call_accept_cs : ℕ
call_accept_cs = 0x0003

abbrev pub call_accept_sc : ℕ
call_accept_sc = 0x0004

abbrev pub call_reject_cs : ℕ
call_reject_cs = 0x0005

abbrev pub call_reject_sc : ℕ
call_reject_sc = 0x0006

abbrev pub call_failed : ℕ
call_failed = 0x0007

abbrev pub call_ended : ℕ
call_ended = 0x0008

abbrev pub push_retry : ℕ
push_retry = 0x0009

abbrev pub peer_register : ℕ
peer_register = 0x0100

abbrev pub peer_unregister : ℕ
peer_unregister = 0x0101

abbrev pub masque_relay_needed : ℕ
masque_relay_needed = 0x0300

abbrev pub error : ℕ
error = 0x8001
