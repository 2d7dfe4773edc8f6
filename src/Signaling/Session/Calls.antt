-- ===== src/Signaling/Session/Calls.antt =====
-- The handlers of calls, crates/voip-signaling/src/session.rs.
use text.Mathlib.Text.{◌==◌ as str_eq}
use three_pillars_voip.Base.{
  ℕ, Bool, false, not, ◌&&◌, ◌||◌, ◌==◌, Option, none, some, ◌>>=◌, String, List, if◌then◌else◌,
}
use three_pillars_voip.Base.Int.{ℤ, pos, negsuc}
use three_pillars_voip.Signaling.Errors.{
  SignalingError, rate_limited_code, invalid_message_code, invalid_call_id_code,
  not_call_participant_code,
}
use three_pillars_voip.Signaling.Framing.{FramedMessage}
use three_pillars_voip.Signaling.Messages.{CallRequest}
use three_pillars_voip.Signaling.Messages.TypeId
use three_pillars_voip.Signaling.RateLimit
use three_pillars_voip.Signaling.Registry
use three_pillars_voip.Signaling.Registry.{CallEntry, AppState}
use three_pillars_voip.Signaling.Server.{Server, World, send}
use three_pillars_voip.Signaling.Server.Masque.{send_relay_needed}
use three_pillars_voip.Signaling.Server.Push.{is_retryable_reason, handle_retryable_failure}
use three_pillars_voip.Signaling.Session.{Session, refuse, refuse_error, acts_for_other, limited}

module _ {Sender : Type 0} (server : Server Sender) where
  abbrev pub with_app :
      AppState server.peer_cache server.call_cache → Session server → Session server
  with_app app s = record s { world = record s.world { app = app } }

  -- A result of the registry: the new state, and the error sent back, if any.
  abbrev pub remove : String → Session server → Session server
  remove call_id s =
      with_app (Registry.remove_call server.peer_cache server.call_cache call_id s.world.app) s

  abbrev pub end_with : ℕ → String → Option String → Session server → Session server
  end_with secs call_id reason s =
      with_app
        (Registry.end_call server.peer_cache server.call_cache secs call_id reason s.world.app).0 s

  unfoldable pub forward :
      String → FramedMessage → Session server → Session server × Option SignalingError
  forward peer_id m s =
      let (world, e) = send server peer_id m s.world in (record s { world = world }, e)

  -- Looks the call up, which makes it the most recently used.
  unfoldable pub find_call : String → Session server → Session server × Option CallEntry
  find_call call_id s =
      let (app, found) =
        Registry.get_call server.peer_cache server.call_cache call_id s.world.app in
      (with_app app s, found)

  abbrev pub call_not_found : Session server → Session server
  call_not_found s = refuse server invalid_call_id_code "call not found" s

  abbrev pub new_call : ℕ → CallRequest → CallEntry
  new_call secs msg = record {
    call_id = msg.call_id;
    caller_id = msg.caller_id;
    callee_id = msg.callee_id;
    state = pos 0;
    connection_method = pos 0;
    discovery_method = msg.discovery_method;
    created_at = secs;
    connected_at = none;
    ended_at = none;
    failure_reason = none;
    retry_count = 0;
  }

  -- A call that cannot be forwarded is taken out again.
  unfoldable pub forward_request : CallRequest → List ℕ → Session server → Session server
  forward_request msg payload s =
      let (s', e) =
        forward msg.callee_id (record { type_id = TypeId.call_request_sc; payload = payload }) s in
      elim e [ none ↦ s' | some e ↦ remove msg.call_id (refuse_error server e s') ]

  unfoldable pub place_call : ℕ → CallRequest → List ℕ → Session server → Session server
  place_call secs msg payload s =
      if acts_for_other server s.peer_id msg.caller_id
      then refuse server not_call_participant_code "caller_id does not match session peer_id" s
      else let (app, e) =
          Registry.create_call server.peer_cache server.call_cache (new_call secs msg)
            s.world.app in
        elim e [
          | some e ↦ refuse_error server e (with_app app s)
          | none ↦ forward_request msg payload (with_app app s)
        ]

  unfoldable pub ws_handle_call_request : ℕ → ℕ → List ℕ → Session server → Option (Session server)
  ws_handle_call_request now secs payload s = elim (server.codec.decode_call_request payload) [
    | none ↦ some (refuse server invalid_message_code "invalid CallRequest payload" s)
    | some msg ↦ do
      (limiter, allowed) ← RateLimit.check now msg.caller_id RateLimit.call s.world.app.rate_limiter
      some (
          if not allowed
          then refuse server rate_limited_code "call rate limit exceeded" (limited server limiter s)
          else place_call secs msg payload (limited server limiter s))
  ]

  -- The state is looked at again after it was set, for the caller.
  unfoldable pub forward_accept : String → List ℕ → Session server → Session server
  forward_accept call_id payload s =
      let (s', found) = find_call call_id s in
      elim found [
        | none ↦ refuse server invalid_call_id_code "call not found after state update" s'
        | some c ↦
            let (s'', e) =
              forward c.caller_id (record { type_id = TypeId.call_accept_sc; payload = payload })
                s' in
            elim e [ none ↦ s'' | some e ↦ refuse_error server e s'' ]
      ]

  unfoldable pub accept_call : String → List ℕ → Session server → Session server
  accept_call call_id payload s =
      let (app, e) =
        Registry.update_call_state server.peer_cache server.call_cache call_id (pos 1)
          s.world.app in
      elim e [
        | some e ↦ refuse_error server e (with_app app s)
        | none ↦ forward_accept call_id payload (with_app app s)
      ]

  unfoldable pub ws_handle_call_accept : List ℕ → Session server → Session server
  ws_handle_call_accept payload s = elim (server.codec.decode_call_accept payload) [
    | none ↦ refuse server invalid_message_code "invalid CallAccept payload" s
    | some call_id ↦
        let (s', found) = find_call call_id s in
        elim found [
          | none ↦ call_not_found s'
          | some c ↦
              if acts_for_other server s.peer_id c.callee_id
              then refuse server not_call_participant_code "only the callee can accept a call" s'
              else accept_call call_id payload s'
        ]
  ]

  unfoldable pub ws_handle_call_reject : ℕ → List ℕ → Session server → Session server
  ws_handle_call_reject secs payload s = elim (server.codec.decode_call_reject payload) [
    | none ↦ s
    | some call_id ↦
        let (s', found) = find_call call_id s in
        elim found [
          | none ↦ call_not_found s'
          | some c ↦
              if acts_for_other server s.peer_id c.callee_id
              then refuse server not_call_participant_code "only the callee can reject a call" s'
              else remove call_id
                  (forward c.caller_id
                    (record { type_id = TypeId.call_reject_sc; payload = payload })
                    (end_with secs call_id (some "rejected") s')).0
        ]
  ]

  -- The session acts for a peer that is neither the caller nor the callee.
  abbrev pub is_stranger : Option String → CallEntry → Bool
  is_stranger peer_id c =
      acts_for_other server peer_id c.caller_id && acts_for_other server peer_id c.callee_id

  abbrev is_peer : Option String → String → Bool
  is_peer none peer = false
  is_peer (some p) peer = str_eq p peer

  abbrev pub other_peer : Option String → CallEntry → String
  other_peer peer_id c = if is_peer peer_id c.caller_id then c.callee_id else c.caller_id

  abbrev is_reason : ℕ → ℤ → Bool
  is_reason n (pos r) = r == n
  is_reason n (negsuc r) = false

  abbrev retry_if_possible : String → CallEntry → String → ℤ → World server → World server
  retry_if_possible call_id c other reason w =
      if is_retryable_reason reason
      then handle_retryable_failure server call_id c.caller_id c.callee_id reason other
          c.retry_count w
      else w

  -- A relay where the reason calls for one, else, or if that fails, a retry.
  unfoldable pub follow_up : ℕ → String → CallEntry → String → ℤ → World server → World server
  follow_up secs call_id c other reason w =
      let (w', e) = send_relay_needed server secs call_id c.caller_id c.callee_id w in
      if is_reason 3 reason || is_reason 4 reason
      then elim e [ none ↦ w' | some _ ↦ retry_if_possible call_id c other reason w' ]
      else retry_if_possible call_id c other reason w

  unfoldable pub ws_handle_call_failed : ℕ → List ℕ → Session server → Session server
  ws_handle_call_failed secs payload s = elim (server.codec.decode_call_failed payload) [
    | none ↦ s
    | some msg ↦
        let (s', found) = find_call msg.call_id s in
        elim found [
          | none ↦ call_not_found s'
          | some c ↦
              let other = other_peer s.peer_id c in
              let told =
                (forward other (record { type_id = TypeId.call_failed; payload = payload }) s').0 in
              if is_stranger s.peer_id c
              then refuse server not_call_participant_code "not a participant in this call" s'
              else end_with secs msg.call_id (some msg.description)
                  (record told { world = follow_up secs msg.call_id c other msg.reason told.world })
        ]
  ]

  unfoldable pub ws_handle_call_ended : ℕ → List ℕ → Session server → Session server
  ws_handle_call_ended secs payload s = elim (server.codec.decode_call_ended payload) [
    | none ↦ s
    | some call_id ↦
        let (s', found) = find_call call_id s in
        elim found [
          | none ↦ call_not_found s'
          | some c ↦
              let other = other_peer s.peer_id c in
              if is_stranger s.peer_id c
              then refuse server not_call_participant_code "not a participant in this call" s'
              else remove call_id (
                  end_with secs call_id none
                    (forward other (record { type_id = TypeId.call_ended; payload = payload })
                      s').0)
        ]
  ]
