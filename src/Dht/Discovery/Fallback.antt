-- ===== src/Dht/Discovery/Fallback.antt =====
-- How the two ways of finding a peer go together, crates/voip-dht/src/discovery.rs.
use three_pillars_voip.Base.{ℕ, ◌≡◌, Bool, ◌||◌, String, arith}
use three_pillars_voip.Dht.Discovery.{
  Network, is_ok, discover_peer, discover_peer_dht, discover_peer_signaling,
}

module _ (net : Network) where
  -- A peer is found in either mode exactly when the table or the server has it: the mode decides only
  -- which answer is taken where both have one.
  pub is_ok-discover_peer :
      (first_dht : Bool) (timeout_ms now : ℕ) (peer_id : String)
      → is_ok (discover_peer net first_dht timeout_ms now peer_id) ≡ (
          is_ok (discover_peer_dht net timeout_ms now peer_id)
          || is_ok (discover_peer_signaling net now peer_id))
  unfolding discover_peer
  is_ok-discover_peer first_dht timeout_ms now peer_id = ground arith
