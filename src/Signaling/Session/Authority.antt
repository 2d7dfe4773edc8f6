-- ===== src/Signaling/Session/Authority.antt =====
-- Who may act on a call, crates/voip-signaling/src/session.rs.
use text.Mathlib.Text.{◌==◌ as str_eq}
use three_pillars_voip.Base.{ℕ, ◌≡◌, false, Option, none, some, String, List, arith, if◌then◌else◌}
use three_pillars_voip.Signaling.Framing.{FramedMessage}
use three_pillars_voip.Signaling.Messages.TypeId
use three_pillars_voip.Signaling.Registry.{
  CallEntry, get_call, end_call, update_call, remove_call, send_to_peer, hung_up,
}
use three_pillars_voip.Signaling.Server.{Server, send}
use three_pillars_voip.Signaling.Session.{Session}
use three_pillars_voip.Signaling.Session.Calls.{
  forward, find_call, end_with, remove, ws_handle_call_ended,
}

module _ {Sender : Type 0} (server : Server Sender) where
  -- The call that the registry holds under an id.
  abbrev pub held : String → Session server → Option CallEntry
  held k s = server.call_cache.peek k s.world.app.calls

  held-find_call :
      (k id : String) (s : Session server) → held k (find_call server id s).0 ≡ held k s
  unfolding find_call get_call
  held-find_call k id s = ground (arith, server.call_cache.peek-get id k s.world.app.calls)

  found-find_call : (id : String) (s : Session server) → (find_call server id s).1 ≡ held id s
  unfolding find_call get_call
  found-find_call id s = ground (arith, server.call_cache.get-peek id s.world.app.calls)

  pub held-forward :
      (k peer : String) (m : FramedMessage) (s : Session server)
      → held k (forward server peer m s).0 ≡ held k s
  unfolding forward send send_to_peer
  held-forward k peer m s = ground arith

  held-end_with :
      (secs : ℕ) (k id : String) (reason : Option String) (s : Session server)
      → str_eq id k ≡ false
      → held k (end_with server secs id reason s) ≡ held k s
  unfolding end_call update_call
  held-end_with secs k id reason s e = ground (
    arith,
    server.call_cache.peek-modify id k (hung_up server.peer_cache server.call_cache secs reason)
        s.world.app.calls,
  )

  pub held-remove :
      (k id : String) (s : Session server)
      → held k (remove server id s) ≡ (if str_eq id k then none else held k s)
  unfolding remove_call
  held-remove k id s = server.call_cache.peek-pop id k s.world.app.calls

  -- A session that acts for no peer, as after it has unregistered any peer, ends any call: the registry
  -- no longer holds the call, whoever its caller and its callee are, and holds every other call as before.
  pub anonymous_ends_any_call :
      (secs : ℕ) (payload : List ℕ) (id k : String) (c : CallEntry) (s : Session server)
      → s.peer_id ≡ none
      → held id s ≡ some c
      → server.codec.decode_call_ended payload ≡ some id
      → held k (ws_handle_call_ended server secs payload s)
        ≡ (if str_eq id k then none else held k s)
  unfolding ws_handle_call_ended
  anonymous_ends_any_call secs payload id k c s p h d =
      let s1 = (find_call server id s).0 in
      let m : FramedMessage = record { type_id = TypeId.call_ended; payload = payload } in
      let s2 = (forward server c.caller_id m s1).0 in
      ground (
        arith,
        found-find_call id s,
        held-remove k id (end_with server secs id none s2),
        held-end_with secs k id none s2,
        held-forward k c.caller_id m s1,
        held-find_call k id s,
      )
