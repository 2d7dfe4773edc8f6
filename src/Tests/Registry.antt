-- ===== src/Tests/Registry.antt =====
-- The registry with an unbounded cache, and a call between two peers.
use text.Mathlib.Text.{◌==◌ as str_eq}
use text.Mathlib.TextEquality.{eq_iff}
use text.Mathlib.TextPositions.{eq_refl}
use three_pillars_voip.Base.{
  ℕ, ◌≡◌, ◌⊎◌, refl, false, none, some, String, [], ◌∷◌, inl, inr, Option-cases, arith,
  if◌then◌else◌,
}
use three_pillars_voip.Base.Int.{pos}
use three_pillars_voip.Base.Maps.{StringMap, lookup, insert, remove, lookup-insert, lookup-remove}
use three_pillars_voip.Signaling.RateLimit.{default, new}
use three_pillars_voip.Signaling.Registry.{LruCache, PeerEntry, CallEntry, AppState, modified}

module _ {V : Type 0} where
  abbrev change : String → (V → V) → StringMap V → StringMap V
  change k f m = elim (lookup k m) [ none ↦ m | some v ↦ insert k (f v) m ]

  pub lookup-insert_same : (k : String) (v : V) (m : StringMap V) → lookup k (insert k v m) ≡ some v
  lookup-insert_same k v m = ground (arith, lookup-insert k k v m, eq_refl k)

  pub lookup-change :
      (k j : String) (f : V → V) (m : StringMap V)
      → lookup j (change k f m) ≡ (if str_eq k j then modified f (lookup k m) else lookup j m)
  lookup-change k j f m = elim (Option-cases (lookup k m)) [
    | inl e ↦ ground (arith, eq_iff k j)
    | inr (v, e) ↦ ground (arith, eq_iff k j, lookup-insert k j (f v) m)
  ]

  pub lookup-insert_other :
      (k j : String) (v : V) (m : StringMap V)
      → str_eq k j ≡ false
      → (lookup j (insert k v m) ≡ lookup j m) ⊎ (lookup j (insert k v m) ≡ none)
  lookup-insert_other k j v m e = inl (ground (arith, lookup-insert k j v m))

abbrev pub unbounded : (V : Type 0) → LruCache V
unbounded V = record {
  Cache = StringMap V;
  peek = lookup;
  get = λ k m. (m, lookup k m);
  put = insert;
  pop = remove;
  modify = change;
  get-peek = λ k m. refl;
  peek-get = λ k j m. refl;
  peek-put = lookup-insert_same;
  peek-put_other = lookup-insert_other;
  peek-pop = lookup-remove;
  peek-modify = lookup-change;
}

-- Channels are numbers here.
abbrev pub online : String → PeerEntry ℕ
online peer_id = record {
  info = record {
    peer_id = peer_id;
    display_name = peer_id;
    ipv6_addresses = [];
    ipv4_reflexive = [];
    nat_type = pos 1;
    status = pos 0;
    fcm_token = none;
    last_seen = 0;
  };
  sender = some 1;
}

abbrev pub server : AppState (unbounded (PeerEntry ℕ)) (unbounded CallEntry)
server = record {
  peers = ("alice", online "alice") ∷ ("bob", online "bob") ∷ [];
  calls = [];
  rate_limiter = new default;
  proxies = [];
  dht_bootstrap = [];
}

abbrev pub call : CallEntry
call = record {
  call_id = "call";
  caller_id = "alice";
  callee_id = "bob";
  state = pos 1;
  connection_method = pos 0;
  discovery_method = pos 0;
  created_at = 0;
  connected_at = none;
  ended_at = none;
  failure_reason = none;
  retry_count = 0;
}

abbrev pub calling : AppState (unbounded (PeerEntry ℕ)) (unbounded CallEntry)
calling = record server { calls = ("call", call) ∷ [] }
