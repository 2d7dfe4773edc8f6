-- ===== src/Client/PeerCache.antt =====
-- The peer address book, crates/voip-client/src/peer_cache.rs. An instant is a number of nanoseconds
-- and an argument; the lock is held throughout each operation.
pub mod Lookups
use three_pillars_voip.Base.{
  ℕ, ◌-◌, ◌*◌, Bool, not, Option, none, some, List, [], ◌==◌, String, length, ltb, if◌then◌else◌,
}
use three_pillars_voip.Base.Int.{ℤ}
use three_pillars_voip.Base.Maps
use three_pillars_voip.Base.Maps.{StringMap, lookup, remove, retain}
use three_pillars_voip.Core.Types.DiscoveryMethod.{DiscoveryMethod}
use three_pillars_voip.Core.Types.Wire.{ProtoNatInfo, ProtoTrackAnnouncement}

-- The generated message of proto/signaling.proto.
pub record PeerRecord : Type 0 where
  pub peer_id : String
  pub display_name : String
  pub ipv6_addresses : List String
  pub ipv4_reflexive : List String
  pub nat_info : Option ProtoNatInfo
  pub tracks : List ProtoTrackAnnouncement
  pub status : ℤ
  pub timestamp : ℕ
  pub ttl_seconds : ℕ
  pub signature : List ℕ

pub record CachedPeer : Type 0 where
  pub peer : PeerRecord
  pub discovered_via : DiscoveryMethod
  pub discovered_at : ℕ
  pub ttl : ℕ

pub record PeerAddressBook : Type 0 where
  pub peers : StringMap CachedPeer
  pub default_ttl : ℕ

abbrev pub is_expired : ℕ → CachedPeer → Bool
is_expired now c = ltb c.ttl (now - c.discovered_at)

abbrev pub new : ℕ → PeerAddressBook
new default_ttl = record { peers = []; default_ttl = default_ttl }

abbrev pub default_settings : PeerAddressBook
default_settings = new (300 * 1000000000)

unfoldable pub insert : ℕ → PeerRecord → DiscoveryMethod → PeerAddressBook → PeerAddressBook
insert now peer discovered_via b =
    let entry : CachedPeer = record {
      peer = peer;
      discovered_via = discovered_via;
      discovered_at = now;
      ttl = b.default_ttl;
    } in
    record b { peers = Maps.insert peer.peer_id entry b.peers }

-- What is given out of an entry.
abbrev pub fresh : ℕ → Option CachedPeer → Option (PeerRecord × DiscoveryMethod)
fresh now none = none
fresh now (some c) = if is_expired now c then none else some (c.peer, c.discovered_via)

unfoldable pub get : ℕ → String → PeerAddressBook → Option (PeerRecord × DiscoveryMethod)
get now peer_id b = fresh now (lookup peer_id b.peers)

unfoldable pub invalidate : String → PeerAddressBook → PeerAddressBook
invalidate peer_id b = record b { peers = remove peer_id b.peers }

-- The book, and how many entries went.
unfoldable pub cleanup_expired : ℕ → PeerAddressBook → PeerAddressBook × ℕ
cleanup_expired now b =
    let left = retain (λ c. not (is_expired now c)) b.peers in
    (record b { peers = left }, length b.peers - length left)

pub len : PeerAddressBook → ℕ
len b = length b.peers

pub is_empty : PeerAddressBook → Bool
unfolding len
is_empty b = len b == 0

pub clear : PeerAddressBook → PeerAddressBook
clear b = record b { peers = [] }
