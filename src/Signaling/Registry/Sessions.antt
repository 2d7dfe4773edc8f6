-- ===== src/Signaling/Registry/Sessions.antt =====
-- What the registry of crates/voip-signaling/src/state.rs holds of calls and peers.
use text.Mathlib.Text.{◌==◌ as str_eq}
use text.Mathlib.TextEquality.{eq_iff}
use text.Mathlib.TextPositions.{eq_refl}
use three_pillars_voip.Base.{
  ℕ, ◌≡◌, ◌↔◌, ◌⊎◌, true, Option, none, some, String, arith, refl, if◌then◌else◌,
}
use three_pillars_voip.Signaling.Registry.{
  LruCache, PeerEntry, CallEntry, AppState, is_some, modified, create_call, get_call, end_call,
  update_call, hung_up, disconnect_peer, is_offline, offline,
}

module _ {Sender : Type 0} (peer_cache : LruCache (PeerEntry Sender))
    (call_cache : LruCache CallEntry) where
  -- A call is created exactly when both its peers are held in the registry and its id is new; it is then
  -- found under its id, and a refused call leaves the registry as it was.
  pub create_call_lem :
      (call : CallEntry) (a : AppState peer_cache call_cache)
      → let (b, e) = create_call peer_cache call_cache call a in
        ((e ≡ none) ↔ (
          (is_some (peer_cache.peek call.caller_id a.peers) ≡ true)
          × (is_some (peer_cache.peek call.callee_id a.peers) ≡ true)
          × (call_cache.peek call.call_id a.calls ≡ none)))
        × (((e ≡ none) × ((get_call peer_cache call_cache call.call_id b).1 ≡ some call))
            ⊎ ((is_some e ≡ true) × (b ≡ a)))
  unfolding create_call get_call
  create_call_lem call a = ground (
    arith,
    call_cache.peek-put call.call_id call a.calls,
    call_cache.get-peek call.call_id (call_cache.put call.call_id call a.calls),
  )

  -- A call that is ended is found with the state 4, the instant and the reason; a call that is not held
  -- is refused, and every other call is found as before.
  pub end_call_lem :
      (now : ℕ) (call_id other : String) (reason : Option String)
      (a : AppState peer_cache call_cache)
      → let (b, e) = end_call peer_cache call_cache now call_id reason a in
        ((get_call peer_cache call_cache other b).1 ≡ (
          if str_eq call_id other
          then modified (hung_up peer_cache call_cache now reason) (call_cache.peek call_id a.calls)
          else (get_call peer_cache call_cache other a).1))
        × ((e ≡ none) ↔ (is_some (call_cache.peek call_id a.calls) ≡ true))
  unfolding end_call update_call get_call
  end_call_lem now call_id other reason a =
      let f = hung_up peer_cache call_cache now reason in
      ground (
        arith,
        call_cache.peek-modify call_id other f a.calls,
        call_cache.get-peek other a.calls,
        call_cache.get-peek other (call_cache.modify call_id f a.calls),
        eq_iff call_id other,
      )

  -- What is left of an entry.
  abbrev pub settled : PeerEntry Sender → PeerEntry Sender
  settled e = if is_offline peer_cache call_cache e then e else offline peer_cache call_cache e

  -- A peer that is disconnected is held as offline and without a channel, if it is held, and every other
  -- peer as before.
  peek-disconnect_peer :
      (peer_id other : String) (a : AppState peer_cache call_cache)
      → peer_cache.peek other (disconnect_peer peer_cache call_cache peer_id a).peers ≡ (
          if str_eq peer_id other
          then modified settled (peer_cache.peek peer_id a.peers)
          else peer_cache.peek other a.peers)
  unfolding disconnect_peer
  peek-disconnect_peer peer_id other a = ground (
    arith,
    peer_cache.peek-modify peer_id other (λ x. x) a.peers,
    peer_cache.peek-modify peer_id other (offline peer_cache call_cache) a.peers,
    eq_iff peer_id other,
  )

  settled_idem :
      (o : Option (PeerEntry Sender)) → modified settled (modified settled o) ≡ modified settled o
  settled_idem none = refl
  settled_idem (some e) = ground arith

  -- To disconnect a peer a second time changes nothing that the registry holds of any peer.
  pub disconnect_peer_idem :
      (peer_id other : String) (a : AppState peer_cache call_cache)
      → let b = disconnect_peer peer_cache call_cache peer_id a in
        peer_cache.peek other (disconnect_peer peer_cache call_cache peer_id b).peers
        ≡ peer_cache.peek other b.peers
  disconnect_peer_idem peer_id other a =
      let b = disconnect_peer peer_cache call_cache peer_id a in
      ground (
        arith,
        peek-disconnect_peer peer_id other b,
        peek-disconnect_peer peer_id other a,
        peek-disconnect_peer peer_id peer_id a,
        eq_refl peer_id,
        settled_idem (peer_cache.peek peer_id a.peers),
      )
