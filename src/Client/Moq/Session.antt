-- ===== src/Client/Moq/Session.antt =====
-- `MoqSession` of crates/voip-client/src/moq.rs. What the QUIC connection answers is an argument of
-- the step that waits for it; what goes out on the control stream stays as a log, the latest first.
pub mod Handshake
pub mod Reports
pub mod Subscriptions
use three_pillars_voip.Base.{
  ℕ, ◌+◌, ◌%◌, Bool, true, false, not, ◌&&◌, ◌||◌, Option, none, some, List, [], ◌∷◌, ◌++◌, length,
  ◌==◌, if◌then◌else◌, u64_mod,
}
use three_pillars_voip.Client.Moq.Varint.{decode_varint}
use three_pillars_voip.Client.Moq.Datagram
use three_pillars_voip.Client.Moq.Datagram.{MoqDatagram}
use three_pillars_voip.Client.Moq.Setup.{
  voip_default, encode, server_setup, draft_17, server_setup_bytes, Parsed, decode_server_setup,
  parse_client_setup, ServerSetup, ClientSetup,
}
use three_pillars_voip.Client.Moq.Control.{
  TrackNamespace, StartPoint, announce_bytes, subscribe_bytes, QualityReport, new_report,
  quality_report_bytes,
}

pub data SessionState : Type 0 where
  idle setting_up active closing closed : SessionState

-- `panicked` is the panic of a reader; the texts of transport errors are left out.
pub data SessionError : Type 0 where
  invalid_state : (got : SessionState) → SessionError
  transport_error version_negotiation_failed panicked : SessionError
  unexpected_message_type : (expected got : ℕ) → SessionError
  datagram_error : Datagram.MoqError → SessionError

pub record TrackSubscription : Type 0 where
  pub subscribe_id : ℕ
  pub namespace : TrackNamespace
  pub start : StartPoint

pub record MoqSession : Type 0 where
  pub state : SessionState
  pub subscriptions : List TrackSubscription
  pub announced : List TrackNamespace
  pub quality_reports : List QualityReport
  pub next_subscribe_id : ℕ
  pub control_log : List (List ℕ)
  pub datagrams : List (List ℕ)

abbrev pub new : MoqSession
new = record {
  state = idle;
  subscriptions = [];
  announced = [];
  quality_reports = [];
  next_subscribe_id = 0;
  control_log = [];
  datagrams = [];
}

-- `none` is `Ok(())`.
abbrev pub Outcome : Type 0
Outcome = MoqSession × Option SessionError

-- What a read of the control stream gives: bytes, none at its end, or no answer in ten seconds.
pub data Reading : Type 0 where
  bytes : List ℕ → Reading
  read_failed read_timeout : Reading

abbrev is_idle : SessionState → Bool
is_idle idle = true
is_idle _ = false

abbrev pub is_active : SessionState → Bool
is_active active = true
is_active _ = false

-- ANNOUNCE_CANCEL, GOAWAY and MAX_SUBSCRIBE_ID.
abbrev pub is_stub : ℕ → Bool
is_stub kind = kind == 0x0D || kind == 0x1A || kind == 0x1B

-- `none` is a write that failed.
abbrev pub written : Bool → List ℕ → MoqSession → Option MoqSession
written true message s = some (record s { control_log = message ∷ s.control_log })
written false message s = none

module _ (from_utf8_lossy : List ℕ → List ℕ) where
  abbrev pub check_version : Parsed ServerSetup → Option SessionError
  check_version (Parsed.ok m) =
      if m.version == draft_17 then none else some version_negotiation_failed
  check_version (Parsed.unexpected_type expected got) = some (unexpected_message_type expected got)
  check_version Parsed.panics = some panicked

  unfoldable pub check_server_setup : Reading → Option SessionError
  check_server_setup read_failed = some transport_error
  check_server_setup read_timeout = some transport_error
  check_server_setup (bytes answer) =
      let kind = (decode_varint answer).0 in
      if length answer == 0
      then some transport_error
      else if kind == server_setup
      then check_version (decode_server_setup from_utf8_lossy answer)
      else if is_stub kind
      then none
      else some (unexpected_message_type server_setup kind)

  abbrev pub supports_draft_17 : List ℕ → Bool
  supports_draft_17 [] = false
  supports_draft_17 (v ∷ vs) = v == draft_17 || supports_draft_17 vs

  abbrev pub check_versions : Parsed ClientSetup → Option SessionError
  check_versions (Parsed.ok m) =
      if supports_draft_17 m.versions then none else some version_negotiation_failed
  check_versions (Parsed.unexpected_type expected got) = some (unexpected_message_type expected got)
  check_versions Parsed.panics = some panicked

  unfoldable pub check_client_setup : Reading → Option SessionError
  check_client_setup read_failed = some transport_error
  check_client_setup read_timeout = some transport_error
  check_client_setup (bytes request) =
      if length request == 0
      then some transport_error
      else check_versions (parse_client_setup from_utf8_lossy request)

  -- The step is over: the session is active, or keeps the state it has after an error.
  abbrev pub finish : MoqSession → Option SessionError → Outcome
  finish s none = (record s { state = active }, none)
  finish s (some e) = (s, some e)

  -- Whether the stream opens, whether the message goes out, and what comes back.
  unfoldable pub setup : Bool → Bool → Reading → MoqSession → Outcome
  setup opens writes answer s =
      let begun : MoqSession = record s { state = setting_up } in
      if not (is_idle s.state)
      then (s, some (invalid_state s.state))
      else if not opens
      then (begun, some transport_error)
      else elim (written writes (encode voip_default) begun) [
        | none ↦ (begun, some transport_error)
        | some sent ↦ finish sent (check_server_setup answer)
      ]

  unfoldable pub accept : Bool → Reading → Bool → MoqSession → Outcome
  accept opens request writes s =
      let begun : MoqSession = record s { state = setting_up } in
      if not (is_idle s.state)
      then (s, some (invalid_state s.state))
      else if not opens
      then (begun, some transport_error)
      else elim (check_client_setup request) [
        | some e ↦ (begun, some e)
        | none ↦ elim (written writes server_setup_bytes begun) [
          | none ↦ (begun, some transport_error)
          | some sent ↦ finish sent none
        ]
      ]

unfoldable pub announce : Bool → TrackNamespace → MoqSession → Outcome
announce writes namespace s =
    if not (is_active s.state)
    then (s, some (invalid_state s.state))
    else elim (written writes (announce_bytes namespace) s) [
      | none ↦ (s, some transport_error)
      | some sent ↦ (record sent { announced = s.announced ++ namespace ∷ [] }, none)
    ]

-- The identifier is taken before the message goes out, and is the result where it does.
unfoldable pub subscribe : Bool → TrackNamespace → StartPoint → MoqSession → Outcome
subscribe writes namespace start s =
    let id = s.next_subscribe_id in
    let taken : MoqSession = record s { next_subscribe_id = (id + 1) % u64_mod } in
    let subscription : TrackSubscription = record {
      subscribe_id = id;
      namespace = namespace;
      start = start;
    } in
    if not (is_active s.state)
    then (s, some (invalid_state s.state))
    else elim (written writes (subscribe_bytes id namespace start) taken) [
      | none ↦ (taken, some transport_error)
      | some sent ↦ (record sent { subscriptions = s.subscriptions ++ subscription ∷ [] }, none)
    ]

unfoldable pub send_datagram : Bool → MoqDatagram → MoqSession → Outcome
send_datagram sends d s =
    if not (is_active s.state)
    then (s, some (invalid_state s.state))
    else if sends
    then (record s { datagrams = Datagram.encode d ∷ s.datagrams }, none)
    else (s, some transport_error)

unfoldable pub send_quality_report : Bool → QualityReport → MoqSession → Outcome
send_quality_report writes r s = elim (written writes (quality_report_bytes r) s) [
  | none ↦ (s, some transport_error)
  | some sent ↦ (sent, none)
]

-- The first report of the track, or a new one at the end; the count is a `u64`.
unfoldable pub recorded : MoqDatagram → List QualityReport → List QualityReport
recorded d [] = record (new_report d.track_alias) { last_seq = d.sequence; received = 1 } ∷ []
recorded d (r ∷ rs) =
    let rest = recorded d rs in
    if r.track_alias == d.track_alias
    then record r { last_seq = d.sequence; received = (r.received + 1) % u64_mod } ∷ rs
    else r ∷ rest

unfoldable pub record_received_datagram : MoqDatagram → MoqSession → MoqSession
record_received_datagram d s = record s { quality_reports = recorded d s.quality_reports }

pub close : MoqSession → MoqSession
close s = record s { state = closed }
