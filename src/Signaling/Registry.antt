-- ===== src/Signaling/Registry.antt =====
-- The registry of peers and calls, crates/voip-signaling/src/state.rs. The bounded cache of the lru
-- crate is an interface, the sending half of a channel a type, and the clock an argument, in seconds.

pub mod Sessions
use text.Mathlib.Text.{◌==◌ as str_eq}
use three_pillars_voip.Base.{
  ℕ, Bool, true, false, not, ◌&&◌, Option, none, some, List, [], ◌∷◌, ◌++◌, String, ◌≡◌, ◌≢◌, ◌⊎◌,
  if◌then◌else◌,
}
use three_pillars_voip.Base.Int.{ℤ, pos, leb_ℤ}
use three_pillars_voip.Signaling.Errors.{
  SignalingError, unknown_peer, peer_offline, call_already_exists, invalid_call_id,
}
use three_pillars_voip.Signaling.RateLimit
use three_pillars_voip.Signaling.RateLimit.{RateLimiter}
use three_pillars_voip.Signaling.Framing.{FramedMessage}

abbrev pub is_some {ℓ} : {A : Type ℓ} → Option A → Bool
is_some none = false
is_some (some a) = true

abbrev pub modified {ℓ} : {V : Type ℓ} → (V → V) → Option V → Option V
modified f none = none
modified f (some v) = some (f v)

-- `LruCache<String, V>`: `peek` is what the cache holds for a key, which `get`, `contains` and
-- `get_mut` find and do not change; a key that is put is held, and a put of a new key may evict another.
pub record LruCache (V : Type 0) : Type 1 where
  pub Cache : Type 0
  pub peek : String → Cache → Option V
  pub get : String → Cache → Cache × Option V
  pub put : String → V → Cache → Cache
  pub pop : String → Cache → Cache
  pub modify : String → (V → V) → Cache → Cache
  pub get-peek : (k : String) (c : Cache) → (get k c).1 ≡ peek k c
  pub peek-get : (k j : String) (c : Cache) → peek j (get k c).0 ≡ peek j c
  pub peek-put : (k : String) (v : V) (c : Cache) → peek k (put k v c) ≡ some v
  pub peek-put_other :
      (k j : String) (v : V) (c : Cache)
      → str_eq k j ≡ false
      → (peek j (put k v c) ≡ peek j c) ⊎ (peek j (put k v c) ≡ none)
  pub peek-pop :
      (k j : String) (c : Cache) → peek j (pop k c) ≡ (if str_eq k j then none else peek j c)
  pub peek-modify :
      (k j : String) (f : V → V) (c : Cache)
      → peek j (modify k f c) ≡ (if str_eq k j then modified f (peek k c) else peek j c)

pub record PeerInfo : Type 0 where
  pub peer_id : String
  pub display_name : String
  pub ipv6_addresses : List String
  pub ipv4_reflexive : List String
  pub nat_type : ℤ
  pub status : ℤ
  pub fcm_token : Option String
  pub last_seen : ℕ

pub record PeerEntry (Sender : Type 0) : Type 0 where
  pub info : PeerInfo
  pub sender : Option Sender

pub record CallEntry : Type 0 where
  pub call_id : String
  pub caller_id : String
  pub callee_id : String
  pub state : ℤ
  pub connection_method : ℤ
  pub discovery_method : ℤ
  pub created_at : ℕ
  pub connected_at : Option ℕ
  pub ended_at : Option ℕ
  pub failure_reason : Option String
  pub retry_count : ℕ

pub record ProxyInfo : Type 0 where
  pub node_id : String
  pub proxy_url : String
  pub capacity : ℕ
  pub region : String
  pub latency_hint_ms : ℕ

module _ {Sender : Type 0} (peer_cache : LruCache (PeerEntry Sender))
    (call_cache : LruCache CallEntry) where
  -- The signing key, the configuration and the notifier are left out.
  pub record AppState : Type 0 where
    pub peers : peer_cache.Cache
    pub calls : call_cache.Cache
    pub rate_limiter : RateLimiter
    pub proxies : List ProxyInfo
    pub dht_bootstrap : List String

  -- `none` is `Ok(())`.
  abbrev pub Outcome : Type 0
  Outcome = AppState × Option SignalingError

  abbrev pub refreshed : PeerInfo → Option Sender → PeerEntry Sender → PeerEntry Sender
  refreshed info none e = record e { info = info }
  refreshed info (some s) e = record e { info = info; sender = some s }

  unfoldable pub register_peer : PeerInfo → Option Sender → AppState → AppState
  register_peer info sender a =
      if is_some (peer_cache.peek info.peer_id a.peers)
      then record a { peers = peer_cache.modify info.peer_id (refreshed info sender) a.peers }
      else record a {
        peers = peer_cache.put info.peer_id (record { info = info; sender = sender }) a.peers;
      }

  unfoldable pub unregister_peer : String → AppState → AppState
  unregister_peer peer_id a =
      if is_some (peer_cache.peek peer_id a.peers)
      then record a {
        peers = peer_cache.pop peer_id a.peers;
        rate_limiter = RateLimit.remove_peer peer_id a.rate_limiter;
      }
      else a

  -- PEER_OFFLINE is 1.
  abbrev pub is_offline : PeerEntry Sender → Bool
  is_offline e =
      not (is_some e.sender) && leb_ℤ e.info.status (pos 1) && leb_ℤ (pos 1) e.info.status

  abbrev pub offline : PeerEntry Sender → PeerEntry Sender
  offline e = record e { sender = none; info = record e.info { status = pos 1 } }

  -- `get_mut` of an entry that is offline already only makes it the most recently used.
  unfoldable pub disconnect_peer : String → AppState → AppState
  disconnect_peer peer_id a =
      let forgotten = record a { rate_limiter = RateLimit.remove_peer peer_id a.rate_limiter } in
      elim (peer_cache.peek peer_id a.peers) [
        | none ↦ forgotten
        | some e ↦
            if is_offline e
            then record a { peers = peer_cache.modify peer_id (λ x. x) a.peers }
            else record forgotten { peers = peer_cache.modify peer_id offline a.peers }
      ]

  abbrev info_of : Option (PeerEntry Sender) → Option PeerInfo
  info_of none = none
  info_of (some e) = some e.info

  unfoldable pub get_peer : String → AppState → AppState × Option PeerInfo
  get_peer peer_id a =
      let (peers, found) = peer_cache.get peer_id a.peers in
      (record a { peers = peers }, info_of found)

  -- `delivers` says whether the channel is open: the runtime's answer to `send`.
  unfoldable pub send_to_peer :
      (Sender → FramedMessage → Bool) → String → FramedMessage → AppState → Outcome
  send_to_peer delivers peer_id msg a =
      let (peers, found) = peer_cache.get peer_id a.peers in
      let b : AppState = record a { peers = peers } in
      elim found [
        | none ↦ (b, some (unknown_peer peer_id))
        | some e ↦ elim e.sender [
          | none ↦ (b, some (peer_offline peer_id))
          | some s ↦ if delivers s msg then (b, none) else (b, some (peer_offline peer_id))
        ]
      ]

  unfoldable pub create_call : CallEntry → AppState → Outcome
  create_call call a =
      if not (is_some (peer_cache.peek call.caller_id a.peers))
      then (a, some (unknown_peer call.caller_id))
      else if not (is_some (peer_cache.peek call.callee_id a.peers))
      then (a, some (unknown_peer call.callee_id))
      else if is_some (call_cache.peek call.call_id a.calls)
      then (a, some (call_already_exists call.call_id))
      else (record a { calls = call_cache.put call.call_id call a.calls }, none)

  unfoldable pub update_call : String → (CallEntry → CallEntry) → AppState → Outcome
  update_call call_id f a =
      if is_some (call_cache.peek call_id a.calls)
      then (record a { calls = call_cache.modify call_id f a.calls }, none)
      else (a, some (invalid_call_id call_id))

  unfoldable pub update_call_state : String → ℤ → AppState → Outcome
  unfolding update_call
  update_call_state call_id new_state a =
      update_call call_id (λ (c : CallEntry). record c { state = new_state }) a

  abbrev pub hung_up : ℕ → Option String → CallEntry → CallEntry
  hung_up now reason c = record c { state = pos 4; ended_at = some now; failure_reason = reason }

  unfoldable pub end_call : ℕ → String → Option String → AppState → Outcome
  unfolding update_call
  end_call now call_id reason a = update_call call_id (hung_up now reason) a

  unfoldable pub remove_call : String → AppState → AppState
  remove_call call_id a = record a { calls = call_cache.pop call_id a.calls }

  unfoldable pub get_call : String → AppState → AppState × Option CallEntry
  get_call call_id a =
      let (calls, found) = call_cache.get call_id a.calls in (record a { calls = calls }, found)

  unfoldable pub add_proxy : ProxyInfo → AppState → AppState
  add_proxy proxy a = record a { proxies = a.proxies ++ proxy ∷ [] }
