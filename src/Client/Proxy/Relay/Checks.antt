-- ===== src/Client/Proxy/Relay/Checks.antt =====
-- Which datagrams the proxy of crates/voip-client/src/proxy.rs relays, and which sessions it keeps.
use three_pillars_voip.Base.{
  ℕ, ◌+◌, ◌≤◌, ◌≡◌, ◌↔◌, sym, subst, none, some, String, length, arith, inl, inr, Option-cases,
}
use three_pillars_voip.Base.Maps.{lookup, Distinct, kept, lookup-retain, length-retain}
use three_pillars_voip.Client.Proxy.Relay.{
  ProxyLimits, RelaySession, MasqueProxy, elapsed_secs, is_live, recent_count, check_session,
  check_datagram, cleanup_expired_sessions,
}

module _ {Connection : Type 0} where
  -- A session that takes a datagram at the instant `now`: it is not too old, and not too fast.
  pub record Within (now : ℕ) (limits : ProxyLimits) (s : RelaySession Connection) : Type 0 where
    pub duration : elapsed_secs now s.created_at ≤ limits.max_duration_secs
    pub rate : recent_count now s.tracker ≤ limits.max_datagram_rate

  -- A datagram is let through exactly when it is no larger than the limit and its call has a session
  -- that is neither older than the limit nor, if it has sent within the last second, above the rate.
  pub check_datagram-none_iff :
      (now : ℕ) (call_id : String) (size : ℕ) (p : MasqueProxy Connection)
      → (check_datagram now call_id size p ≡ none) ↔ (
          (size ≤ p.limits.max_datagram_size)
          × ((s : RelaySession Connection) × (lookup call_id p.sessions ≡ some s)
              × Within now p.limits s))
  unfolding check_datagram check_session
  check_datagram-none_iff now call_id size p = elim (Option-cases (lookup call_id p.sessions)) [
    | inl e ↦ (λ h. absurd (ground arith), λ (b, (s, f, w)). absurd (ground (arith, f)))
    | inr (s, e) ↦ (
      λ h. (ground arith, (s, e, record { duration = ground arith; rate = ground arith })),
      λ (b, (t, f, w)).
          let q : s ≡ t = cc in
          let v : Within now p.limits s = subst (Within now p.limits) (sym q) w in
          ground (arith, v.duration, v.rate),
    )
  ]

  -- A cleanup keeps the session of a call exactly if it is younger than the limit, and reports how many
  -- are gone. No call has two sessions.
  pub cleanup_expired_sessions_lem :
      (now : ℕ) (call_id : String) (p : MasqueProxy Connection)
      → Distinct p.sessions
      → let (q, removed) = cleanup_expired_sessions now p in
        (lookup call_id q.sessions
          ≡ kept (is_live now p.limits.max_duration_secs) (lookup call_id p.sessions))
        × (length q.sessions + removed ≡ length p.sessions)
  unfolding cleanup_expired_sessions
  cleanup_expired_sessions_lem now call_id p d =
      let keep = is_live now p.limits.max_duration_secs in
      (lookup-retain keep call_id p.sessions d, omega (arith, length-retain keep p.sessions))
