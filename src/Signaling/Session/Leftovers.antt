-- ===== src/Signaling/Session/Leftovers.antt =====
-- What a request for a call leaves behind, crates/voip-signaling/src/session.rs.
use text.Mathlib.TextPositions.{eq_refl}
use three_pillars_voip.Base.{
  ℕ, String, ◌≡◌, ◌⊎◌, inl, inr, none, some, ◌∷◌, List, arith, Option-cases,
}
use three_pillars_voip.Signaling.Framing.{FramedMessage}
use three_pillars_voip.Signaling.Messages.{CallRequest}
use three_pillars_voip.Signaling.Messages.TypeId
use three_pillars_voip.Signaling.Registry.{create_call, send_to_peer}
use three_pillars_voip.Signaling.Server.{Server, send, to_peer}
use three_pillars_voip.Signaling.Session.{Session, refuse, refuse_error}
use three_pillars_voip.Signaling.Session.Calls.{
  forward, forward_request, place_call, new_call, with_app,
}
use three_pillars_voip.Signaling.Session.Authority.{held, held-forward, held-remove}

module _ {Sender : Type 0} (server : Server Sender) where
  abbrev pub request_to : List ℕ → FramedMessage
  request_to payload = record { type_id = TypeId.call_request_sc; payload = payload }

  -- A message that is delivered is the last in the log.
  logged :
      (peer : String) (m : FramedMessage) (s : Session server)
      → (forward server peer m s).1 ≡ none
      → (forward server peer m s).0.world.log ≡ to_peer peer m ∷ s.world.log
  unfolding forward send send_to_peer
  logged peer m s e = ground arith

  forward_request_lem :
      (msg : CallRequest) (payload : List ℕ) (s : Session server)
      → let s' = forward_request server msg payload s in
        (held server msg.call_id s' ≡ none)
        ⊎ ((held server msg.call_id s' ≡ held server msg.call_id s)
            × (s'.world.log ≡ to_peer msg.callee_id (request_to payload) ∷ s.world.log))
  unfolding forward_request
  forward_request_lem msg payload s =
      let (s', o) = forward server msg.callee_id (request_to payload) s in
      elim (Option-cases o) [
        | inl e ↦ ground (
          arith,
          logged msg.callee_id (request_to payload) s,
          held-forward server msg.call_id msg.callee_id (request_to payload) s,
        )
        | inr (x, e) ↦ ground (
          arith,
          eq_refl msg.call_id,
          held-remove server msg.call_id msg.call_id (refuse_error server x s'),
        )
      ]

  -- After a request for a call under a new id that passed the rate limit, either the registry holds the
  -- call and the request is the last thing that was sent, to the callee, or the registry holds no call under
  -- that id.
  pub place_call_lem :
      (secs : ℕ) (msg : CallRequest) (payload : List ℕ) (s : Session server)
      → held server msg.call_id s ≡ none
      → let s' = place_call server secs msg payload s in
        (held server msg.call_id s' ≡ none)
        ⊎ ((held server msg.call_id s' ≡ some (new_call server secs msg))
            × (s'.world.log ≡ to_peer msg.callee_id (request_to payload) ∷ s.world.log))
  unfolding place_call create_call refuse
  place_call_lem secs msg payload s h =
      let (app, o) =
        create_call server.peer_cache server.call_cache (new_call server secs msg) s.world.app in
      ground (
        arith,
        server.call_cache.peek-put msg.call_id (new_call server secs msg) s.world.app.calls,
        forward_request_lem msg payload (with_app server app s),
      )
