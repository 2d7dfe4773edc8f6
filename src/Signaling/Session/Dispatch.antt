-- ===== src/Signaling/Session/Dispatch.antt =====
-- The loop of a session, crates/voip-signaling/src/session.rs: a binary message is a step, and the
-- two tasks of the session share a flag for its end. The idle timer is not part of the state.
use three_pillars_voip.Base.{
  ℕ, Bool, true, not, Option, none, some, ◌>>=◌, List, ◌==◌, length, ltb, if◌then◌else◌,
}
use three_pillars_voip.Signaling.Errors.{rate_limited_code, invalid_message_code}
use three_pillars_voip.Signaling.Framing.{FramedMessage, from_bytes}
use three_pillars_voip.Signaling.Messages.TypeId
use three_pillars_voip.Signaling.RateLimit
use three_pillars_voip.Signaling.Registry
use three_pillars_voip.Signaling.Server.{Server}
use three_pillars_voip.Signaling.Session.{
  Session, refuse, limited, ws_handle_peer_register, ws_handle_peer_unregister,
}
use three_pillars_voip.Signaling.Session.Calls.{
  with_app, ws_handle_call_request, ws_handle_call_accept, ws_handle_call_reject,
  ws_handle_call_failed, ws_handle_call_ended,
}

module _ {Sender : Type 0} (server : Server Sender) where
  unfoldable pub dispatch_ws_message :
      ℕ → ℕ → FramedMessage → Session server → Option (Session server)
  dispatch_ws_message now secs framed s =
      let id = framed.type_id in
      let payload = framed.payload in
      if id == TypeId.peer_register
      then ws_handle_peer_register server now secs payload s
      else if id == TypeId.peer_unregister
      then some (ws_handle_peer_unregister server payload s)
      else if id == TypeId.call_request_cs
      then ws_handle_call_request server now secs payload s
      else if id == TypeId.call_accept_cs
      then some (ws_handle_call_accept server payload s)
      else if id == TypeId.call_reject_cs
      then some (ws_handle_call_reject server secs payload s)
      else if id == TypeId.call_failed
      then some (ws_handle_call_failed server secs payload s)
      else if id == TypeId.call_ended
      then some (ws_handle_call_ended server secs payload s)
      else some (refuse server invalid_message_code "unknown message type ID" s)

  -- The rate limit is not asked while the session acts for no peer.
  unfoldable pub limit_message : ℕ → Session server → Option (Session server × Bool)
  limit_message now s = elim s.peer_id [
    | none ↦ some (s, true)
    | some peer ↦ do
      (limiter, allowed) ← RateLimit.check now peer RateLimit.ws_message s.world.app.rate_limiter
      some (limited server limiter s, allowed)
  ]

  unfoldable pub on_frame : ℕ → ℕ → FramedMessage → Session server → Option (Session server)
  on_frame now secs framed s = do
    (s', allowed) ← limit_message now s
    if not allowed
        then some (refuse server rate_limited_code "WebSocket message rate limit exceeded" s')
        else dispatch_ws_message now secs framed s'

  unfoldable pub on_binary : ℕ → ℕ → List ℕ → Session server → Option (Session server)
  on_binary now secs bytes s =
      if ltb (length bytes) 2
      then some s
      else elim (from_bytes bytes) [ none ↦ some s | some framed ↦ on_frame now secs framed s ]

  -- The first of the two tasks to end disconnects the peer, the second finds the flag set.
  unfoldable pub finish : Bool × Session server → Bool × Session server
  finish (disconnected, s) = if disconnected then (true, s) else elim s.peer_id [
    | none ↦ (true, s)
    | some peer ↦ (
      true,
      with_app server
          (Registry.disconnect_peer server.peer_cache server.call_cache peer s.world.app) s,
    )
  ]
