-- ===== src/Signaling/Handlers/Authority.antt =====
-- Whose entry an authenticated request changes, crates/voip-signaling/src/handlers.rs.
use text.Mathlib.Text.{◌==◌ as str_eq}
use text.Mathlib.TextEquality.{eq_iff}
use text.Mathlib.TextPositions.{eq_refl}
use three_pillars_voip.Base.{
  ℕ, ◌≡◌, sym, true, false, none, String, arith, Option-cases, Bool-cases, inl, inr,
}
use three_pillars_voip.Signaling.Registry
use three_pillars_voip.Signaling.Registry.{PeerInfo, is_some}
use three_pillars_voip.Signaling.Server.{Server}
use three_pillars_voip.Signaling.Handlers.{
  RegisterPeerRequest, Rest, App, register_info, update_peer, unregister_peer, updated_info,
}

module _ {Sender : Type 0} {server : Server Sender} (rest : Rest server) where
  peek-unregister :
      (k peer_id : String) (a : App rest)
      → str_eq peer_id k ≡ false
      → server.peer_cache.peek k
          (Registry.unregister_peer server.peer_cache server.call_cache peer_id a).peers
        ≡ server.peer_cache.peek k a.peers
  unfolding Registry.unregister_peer
  peek-unregister k peer_id a e = ground (arith, server.peer_cache.peek-pop peer_id k a.peers)

  -- The entry that is there is changed in place.
  peek-register :
      (k : String) (info : PeerInfo) (a : App rest)
      → str_eq info.peer_id k ≡ false
      → is_some (server.peer_cache.peek info.peer_id a.peers) ≡ true
      → server.peer_cache.peek k (register_info rest info a).peers
        ≡ server.peer_cache.peek k a.peers
  unfolding Registry.register_peer
  peek-register k info a e h = ground (
    arith,
    h,
    server.peer_cache.peek-modify info.peer_id k
        (Registry.refreshed server.peer_cache server.call_cache info none) a.peers,
  )

  peek-update :
      (secs : ℕ) (peer_id k : String) (body : RegisterPeerRequest) (a : App rest)
      → str_eq peer_id k ≡ false
      → server.peer_cache.peek k (update_peer rest secs peer_id peer_id body a).0.peers
        ≡ server.peer_cache.peek k a.peers
  unfolding update_peer Registry.get_peer
  peek-update secs peer_id k body a e =
      let (peers, found) = server.peer_cache.get peer_id a.peers in
      let b : App rest = record a { peers = (server.peer_cache.get peer_id a.peers).0 } in
      elim (Option-cases (server.peer_cache.peek peer_id a.peers)) [
        | inl n ↦ ground (
          arith,
          eq_refl peer_id,
          n,
          server.peer_cache.get-peek peer_id a.peers,
          server.peer_cache.peek-get peer_id k a.peers,
        )
        | inr (x, p) ↦ ground (
          arith,
          eq_refl peer_id,
          p,
          server.peer_cache.get-peek peer_id a.peers,
          server.peer_cache.peek-get peer_id k a.peers,
          server.peer_cache.peek-get peer_id peer_id a.peers,
          peek-register k (updated_info rest secs body peer_id x.info) b e,
        )
      ]

  -- An update and a removal change the entry of no peer but the one that is authenticated, whichever
  -- peer they name.
  pub authenticated_changes_own :
      (secs : ℕ) (auth peer_id k : String) (body : RegisterPeerRequest) (a : App rest)
      → str_eq auth k ≡ false
      → (server.peer_cache.peek k (update_peer rest secs auth peer_id body a).0.peers
          ≡ server.peer_cache.peek k a.peers)
        × (server.peer_cache.peek k (unregister_peer rest auth peer_id a).0.peers
            ≡ server.peer_cache.peek k a.peers)
  authenticated_changes_own secs auth peer_id k body a e =
      let same : auth ≡ peer_id → str_eq peer_id k ≡ false = λ p. rw (sym p) e in
      elim (Bool-cases (str_eq auth peer_id)) [
        | inl s ↦
            let p : auth ≡ peer_id = ground (arith, eq_iff auth peer_id, s) in
            (
              rw p (peek-update secs peer_id k body a (same p)),
              unfold unregister_peer in ground (arith, s, peek-unregister k peer_id a (same p)),
            )
        | inr s ↦
            (unfold update_peer in ground (arith, s), unfold unregister_peer in ground (arith, s))
      ]
