-- ===== src/Client/Proxy/Relay.antt =====
-- The sessions that the proxy of crates/voip-client/src/proxy.rs relays, and its limits. An instant
-- is a number of nanoseconds and an argument; the connections of a session are a type.
pub mod Checks
use three_pillars_voip.Base.{
  ℕ, suc, ◌+◌, ◌-◌, ◌*◌, ◌/◌, ◌%◌, Bool, true, false, not, ◌||◌, Option, none, some, List, [], ◌∷◌,
  String, length, ltb, ◌==◌, max, if◌then◌else◌, u32_mod, u64_mod,
}
use three_pillars_voip.Base.Maps.{StringMap, lookup, retain}

pub record ProxyLimits : Type 0 where
  pub max_sessions : ℕ
  pub max_duration_secs : ℕ
  pub max_datagram_rate : ℕ
  pub max_datagram_size : ℕ
  pub max_bandwidth_bps : ℕ
  pub blocked_target_ports : List ℕ

-- With the constants of `masque_limits`.
abbrev pub default_limits : ProxyLimits
default_limits = record {
  max_sessions = 10;
  max_duration_secs = 4 * 3600;
  max_datagram_rate = 200;
  max_datagram_size = 1280;
  max_bandwidth_bps = 500000;
  blocked_target_ports = 25 ∷ 194 ∷ 465 ∷ 587 ∷ 993 ∷ 995 ∷ 3389 ∷ [];
}

pub record SessionTracker : Type 0 where
  pub call_id : String
  pub start_time : ℕ
  pub datagram_count : ℕ
  pub bytes_sent : ℕ
  pub bytes_recv : ℕ
  pub last_datagram_time : ℕ

abbrev pub new_tracker : ℕ → String → SessionTracker
new_tracker now call_id = record {
  call_id = call_id;
  start_time = now;
  datagram_count = 0;
  bytes_sent = 0;
  bytes_recv = 0;
  last_datagram_time = now;
}

unfoldable pub record_send : ℕ → ℕ → SessionTracker → SessionTracker
record_send now size t = record t {
  datagram_count = (t.datagram_count + 1) % u64_mod;
  bytes_sent = (t.bytes_sent + size) % u64_mod;
  last_datagram_time = now;
}

unfoldable pub record_recv : ℕ → SessionTracker → SessionTracker
record_recv size t = record t { bytes_recv = (t.bytes_recv + size) % u64_mod }

-- `elapsed().as_secs()`.
abbrev pub elapsed_secs : ℕ → ℕ → ℕ
elapsed_secs now since = (now - since) / 1000000000

unfoldable pub datagram_rate : ℕ → SessionTracker → ℕ
datagram_rate now t = t.datagram_count / max (elapsed_secs now t.start_time) 1 % u32_mod

unfoldable pub send_bandwidth_bps : ℕ → SessionTracker → ℕ
send_bandwidth_bps now t = t.bytes_sent * 8 % u64_mod / max (elapsed_secs now t.start_time) 1

pub duration_secs : ℕ → SessionTracker → ℕ
duration_secs now t = elapsed_secs now t.start_time

pub is_duration_exceeded : ℕ → ℕ → SessionTracker → Bool
unfolding duration_secs
is_duration_exceeded now limit t = ltb limit (duration_secs now t)

pub is_rate_exceeded : ℕ → ℕ → SessionTracker → Bool
is_rate_exceeded now limit t = ltb limit (datagram_rate now t)

pub is_bandwidth_exceeded : ℕ → ℕ → SessionTracker → Bool
is_bandwidth_exceeded now limit t = ltb limit (send_bandwidth_bps now t)

-- The rate counts only if a datagram was sent within the last second.
unfoldable pub recent_count : ℕ → SessionTracker → ℕ
unfolding datagram_rate
recent_count now t = if ltb now (t.last_datagram_time + 1000000000) then datagram_rate now t else 0

pub record RelaySession (Connection : Type 0) : Type 0 where
  pub call_id : String
  pub peer_a : Connection
  pub peer_b : Option Connection
  pub created_at : ℕ
  pub tracker : SessionTracker

-- The sockets and the verifier of `MasqueProxy` are left out.
pub record MasqueProxy (Connection : Type 0) : Type 0 where
  pub sessions : StringMap (RelaySession Connection)
  pub limits : ProxyLimits

-- The errors of `check_datagram`.
pub data ProxyError : Type 0 where
  datagram_size_exceeded : (max got : ℕ) → ProxyError
  session_not_found : String → ProxyError
  duration_exceeded : (limit_secs actual_secs : ℕ) → ProxyError
  datagram_rate_exceeded : (max current : ℕ) → ProxyError

module _ {Connection : Type 0} where
  pub has_capacity : MasqueProxy Connection → Bool
  has_capacity p = ltb (length p.sessions % u32_mod) p.limits.max_sessions

  pub active_session_count : MasqueProxy Connection → ℕ
  active_session_count p = length p.sessions % u32_mod

  -- `elapsed() < Duration::from_secs(max)`.
  abbrev pub is_live : ℕ → ℕ → RelaySession Connection → Bool
  is_live now max_duration_secs s = ltb (now - s.created_at) (max_duration_secs * 1000000000)

  pub cleanup_expired_sessions : ℕ → MasqueProxy Connection → MasqueProxy Connection × ℕ
  cleanup_expired_sessions now p =
      let left = retain (is_live now p.limits.max_duration_secs) p.sessions in
      (record p { sessions = left }, length p.sessions - length left)

  check_session : ℕ → ProxyLimits → RelaySession Connection → Option ProxyError
  check_session now limits s =
      let elapsed = elapsed_secs now s.created_at in
      let current = recent_count now s.tracker in
      if ltb limits.max_duration_secs elapsed
      then some (duration_exceeded limits.max_duration_secs elapsed)
      else if ltb limits.max_datagram_rate current
      then some (datagram_rate_exceeded limits.max_datagram_rate current)
      else none

  -- `none` is `Ok(())`.
  pub check_datagram : ℕ → String → ℕ → MasqueProxy Connection → Option ProxyError
  unfolding check_session
  check_datagram now call_id size p =
      if ltb p.limits.max_datagram_size size
      then some (datagram_size_exceeded p.limits.max_datagram_size size)
      else elim (lookup call_id p.sessions) [
        | none ↦ some (session_not_found call_id)
        | some s ↦ check_session now p.limits s
      ]

abbrev contains : ℕ → List ℕ → Bool
contains x [] = false
contains x (y ∷ ys) = (y == x) || contains x ys

pub is_port_allowed : {Connection : Type 0} → ℕ → MasqueProxy Connection → Bool
is_port_allowed port p = not (contains port p.limits.blocked_target_ports)
