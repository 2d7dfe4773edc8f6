-- ===== src/Client/Moq/Session/Handshake.antt =====
-- The handshake of two sessions, crates/voip-client/src/moq.rs.
use three_pillars_voip.Base.{ℕ, ◌≡◌, ◌≢◌, refl, Bool, true, none, some, List, ◌∷◌, length, arith}
use three_pillars_voip.Base.Bytes.{to_be_bytes, from_be_onto}
use three_pillars_voip.Client.Moq.Varint.{decode_varint, encode_varint, tagged}
use three_pillars_voip.Client.Moq.Setup.{
  voip_default, encode, server_setup_bytes, parse_client_setup, decode_server_setup, read,
  read_many, read_path,
}
use three_pillars_voip.Client.Moq.Session.{
  idle, setting_up, active, MoqSession, Reading, bytes, SessionError, setup, accept,
  check_server_setup, check_client_setup, is_stub,
}

module _ (from_utf8_lossy : List ℕ → List ℕ) where
  request_accepted : check_client_setup from_utf8_lossy (bytes (encode voip_default)) ≡ none
  unfolding check_client_setup parse_client_setup encode read read_many read_path encode_varint
      decode_varint tagged to_be_bytes from_be_onto
  request_accepted = refl

  answer_accepted : check_server_setup from_utf8_lossy (bytes server_setup_bytes) ≡ none
  unfolding check_server_setup decode_server_setup server_setup_bytes read read_path encode_varint
      decode_varint tagged to_be_bytes from_be_onto
  answer_accepted = refl

  -- Two idle sessions whose streams open and deliver what is written both become active: the one that
  -- accepts reads what the other sent and answers with what the other then reads.
  pub handshake :
      (client server : MoqSession)
      → client.state ≡ idle
      → server.state ≡ idle
      → let (server', e) = accept from_utf8_lossy true (bytes (encode voip_default)) true server in
        let (client', f) = setup from_utf8_lossy true true (bytes server_setup_bytes) client in
        (server'.control_log ≡ server_setup_bytes ∷ server.control_log)
        × (client'.control_log ≡ encode voip_default ∷ client.control_log)
        × (server'.state ≡ active)
        × (client'.state ≡ active)
        × (e ≡ none)
        × (f ≡ none)
  unfolding accept setup
  handshake client server hc hs = ground (arith, request_accepted, answer_accepted)

  -- A session becomes active without a version being agreed on if the answer to its setup message is an
  -- ANNOUNCE_CANCEL, GOAWAY or MAX_SUBSCRIBE_ID message, whatever stands in it.
  pub setup_unverified :
      (answer : List ℕ) (s : MoqSession)
      → s.state ≡ idle
      → length answer ≢ 0
      → is_stub (decode_varint answer).0 ≡ true
      → let (s', e) = setup from_utf8_lossy true true (bytes answer) s in
        (s'.state ≡ active) × (e ≡ none)
  unfolding setup check_server_setup
  setup_unverified answer s h l k = ground arith

  -- A setup that fails on an idle session leaves it in the state of setting up, from which neither another
  -- setup nor an acceptance gets it away.
  pub setup_stuck :
      (opens writes opens' writes' : Bool) (answer answer' : Reading) (s : MoqSession)
      (error : SessionError)
      → s.state ≡ idle
      → (setup from_utf8_lossy opens writes answer s).1 ≡ some error
      → let s' = (setup from_utf8_lossy opens writes answer s).0 in
        (s'.state ≡ setting_up)
        × ((setup from_utf8_lossy opens' writes' answer' s').0 ≡ s')
        × ((accept from_utf8_lossy opens' answer' writes' s').0 ≡ s')
  unfolding setup accept
  setup_stuck opens writes opens' writes' answer answer' s error h e = ground arith
