-- ===== src/Client/PeerCache/Lookups.antt =====
-- What a lookup in the address book of crates/voip-client/src/peer_cache.rs gives after each
-- operation.
use text.Mathlib.Text.{◌==◌ as str_eq}
use three_pillars_voip.Base.{
  ℕ, ◌+◌, ◌-◌, ◌≤◌, ◌≡◌, refl, ap, ◌∙◌, not, Option, none, some, String, length, ltb, if◌then◌else◌,
  arith,
}
use three_pillars_voip.Base.Maps.{
  lookup, Distinct, kept, lookup-insert, lookup-remove, lookup-retain, length-retain,
}
use three_pillars_voip.Core.Types.DiscoveryMethod.{DiscoveryMethod}
use three_pillars_voip.Client.PeerCache.{
  PeerRecord, CachedPeer, PeerAddressBook, is_expired, insert, fresh, get, invalidate,
  cleanup_expired,
}

-- After a peer is inserted, a lookup of it gives what was inserted until the default time to live is
-- over, and a lookup of any other peer gives what it gave before.
pub get-insert :
    (now later : ℕ) (peer_id : String) (peer : PeerRecord) (via : DiscoveryMethod)
    (b : PeerAddressBook)
    → get later peer_id (insert now peer via b) ≡ (
        if str_eq peer.peer_id peer_id
        then if ltb b.default_ttl (later - now) then none else some (peer, via)
        else get later peer_id b)
unfolding get insert
get-insert now later peer_id peer via b =
    let entry : CachedPeer = record {
      peer = peer;
      discovered_via = via;
      discovered_at = now;
      ttl = b.default_ttl;
    } in
    ground (arith, lookup-insert peer.peer_id peer_id entry b.peers)

-- After a peer is invalidated, a lookup of it gives nothing, and a lookup of any other peer gives
-- what it gave before.
pub get-invalidate :
    (now : ℕ) (gone peer_id : String) (b : PeerAddressBook)
    → get now peer_id (invalidate gone b)
      ≡ (if str_eq gone peer_id then none else get now peer_id b)
unfolding get invalidate
get-invalidate now gone peer_id b = ground (arith, lookup-remove gone peer_id b.peers)

fresh-kept :
    (now later : ℕ) (o : Option CachedPeer)
    → now ≤ later
    → fresh later (kept (λ c. not (is_expired now c)) o) ≡ fresh later o
fresh-kept now later none h = refl
fresh-kept now later (some c) h = ground arith

-- A cleanup changes no lookup at that or any later instant, and reports how many entries went. No
-- peer has two entries.
pub get-cleanup_expired :
    (now later : ℕ) (peer_id : String) (b : PeerAddressBook)
    → now ≤ later
    → Distinct b.peers
    → let (c, removed) = cleanup_expired now b in
      (get later peer_id c ≡ get later peer_id b) × (length c.peers + removed ≡ length b.peers)
unfolding get cleanup_expired
get-cleanup_expired now later peer_id b h d =
    let keep = λ (c : CachedPeer). not (is_expired now c) in
    (
      ap (fresh later) (lookup-retain keep peer_id b.peers d)
          ∙ fresh-kept now later (lookup peer_id b.peers) h,
      omega (arith, length-retain keep b.peers),
    )
