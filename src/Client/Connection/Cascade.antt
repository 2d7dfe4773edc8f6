-- ===== src/Client/Connection/Cascade.antt =====
-- What the cascade of crates/voip-client/src/connection.rs ends in.
use three_pillars_voip.Base.{
  ℕ, zero, suc, ◌==◌, ◌≡◌, ◌∙◌, ◌⊎◌, refl, inl, inr, Bool, true, false, not, ◌&&◌, ◌||◌, Option,
  none, some, List, [], ◌∷◌, length, String, arith, Bool-cases, Option-cases,
}
use three_pillars_voip.Base.Bytes.{take}
use three_pillars_voip.Core.Config.{VoipConfig}
use three_pillars_voip.Core.Types.CallEndReason.{CallEndReason, failed_udp_blocked}
use three_pillars_voip.Core.Types.ConnectionMethod.{masque_http2}
use three_pillars_voip.Core.Types.Nat.{NatInfo}
use three_pillars_voip.Client.Masque.Tunnel.{MasqueTransport, http2, MasqueTunnel, connect}
use three_pillars_voip.Client.Proxy.Record.{ProxyRecord}
use three_pillars_voip.Client.Connection.{
  Net, Peer, Established, Attempt, reached, missed, crashed, unsettled, addresses, direct,
  happy_eyeballs_connect, try_happy_eyeballs, try_ipv6_direct, try_simultaneous_open,
  try_port_prediction, over_ipv6, over_udp, has_cone, predictable, or_try, only_if, conclude,
  connected, all_methods_failed, first_tunnel, try_masque, over_masque, failure_reason,
  establish_connection,
}

module _ (net : Net) where
  -- One of the proxies is reached over the transport.
  abbrev pub any_reached : MasqueTransport → String → List ProxyRecord → Bool
  any_reached transport call_id [] = false
  any_reached transport call_id (p ∷ ps) =
      net.reaches transport p.proxy_url call_id none || any_reached transport call_id ps

  abbrev pub is_some : {A : Type 0} → Option A → Bool
  is_some none = false
  is_some (some a) = true

  is_some-first_tunnel :
      (transport : MasqueTransport) (call_id : String) (ps : List ProxyRecord)
      → is_some (first_tunnel net transport call_id ps) ≡ any_reached transport call_id ps
  unfolding first_tunnel connect
  is_some-first_tunnel transport call_id [] = refl
  is_some-first_tunnel transport call_id (p ∷ ps) =
      ground (arith, is_some-first_tunnel transport call_id ps)

  any_reached-take :
      (transport : MasqueTransport) (call_id : String) (n : ℕ) (ps : List ProxyRecord)
      → any_reached transport call_id (take n ps) ≡ true
      → (length ps ≡ 0 → ⊥)
  any_reached-take transport call_id zero ps h e = cc
  any_reached-take transport call_id (suc n) [] h e = cc
  any_reached-take transport call_id (suc n) (p ∷ ps) h e = omega arith

  abbrev pub is_connected : Established → Bool
  is_connected (connected c) = true
  is_connected _ = false

  abbrev pub is_reached : Attempt → Bool
  is_reached (reached c) = true
  is_reached _ = false

  -- Neither a panic nor a wait.
  abbrev pub returns : Attempt → Bool
  returns (reached c) = true
  returns missed = true
  returns _ = false

  returns-direct : (winner : Option Bool) → returns (direct net winner) ≡ true
  returns-direct none = refl
  returns-direct (some is_ipv6) = refl

  returns-try_happy_eyeballs : (peer : Peer) → returns (try_happy_eyeballs net peer) ≡ true
  unfolding try_happy_eyeballs
  returns-try_happy_eyeballs peer =
      let attempts =
        net.race (addresses net peer.ipv6_addresses) (addresses net peer.ipv4_reflexive) in
      ground (arith, returns-direct (happy_eyeballs_connect net attempts))

  returns-over_ipv6 : (peer : Peer) → returns (over_ipv6 net peer) ≡ true
  unfolding try_ipv6_direct
  returns-over_ipv6 peer = ground (arith, returns-try_happy_eyeballs peer)

  returns-try_port_prediction : (peer : Peer) → returns (try_port_prediction net peer) ≡ true
  unfolding try_port_prediction
  returns-try_port_prediction peer = ground arith

  is_reached-or_try :
      (a m : Attempt) → is_reached m ≡ true → is_reached (or_try net a m) ≡ returns a
  is_reached-or_try missed m h = h
  is_reached-or_try (reached c) m h = refl
  is_reached-or_try crashed m h = refl
  is_reached-or_try unsettled m h = refl

  returns-or_try :
      (a s p : Attempt) (due : Bool)
      → returns a ≡ true
      → returns p ≡ true
      → returns (or_try net a (or_try net (only_if net due s) p))
        ≡ is_reached a || not due || returns s
  returns-or_try (reached c) s p due h k = refl
  returns-or_try missed s p false h k = k
  returns-or_try missed missed p true h k = k
  returns-or_try missed (reached c) p true h k = refl
  returns-or_try missed crashed p true h k = refl
  returns-or_try missed unsettled p true h k = refl
  returns-or_try crashed s p due h k = absurd cc
  returns-or_try unsettled s p due h k = absurd cc

  returns-over_udp :
      (local_nat : Option NatInfo) (peer : Peer)
      → returns (over_udp net local_nat peer)
        ≡ is_reached (over_ipv6 net peer)
          || not (has_cone net local_nat peer)
          || returns (try_simultaneous_open net peer)
  unfolding over_udp
  returns-over_udp local_nat peer =
      let a = returns-over_ipv6 peer in
      let p = returns-try_port_prediction peer in
      let or_try_lem = λ (q : Attempt) (r : returns q ≡ true).
        returns-or_try (over_ipv6 net peer) (try_simultaneous_open net peer) q
          (has_cone net local_nat peer) a r in
      elim (Bool-cases (predictable net local_nat peer)) [
        | inl e ↦ rw e (or_try_lem (try_port_prediction net peer) p)
        | inr e ↦ rw e (or_try_lem missed refl)
      ]

  is_reached-over_masque :
      (config : VoipConfig) (udp_blocked : Bool) (call_id : String) (ps : List ProxyRecord)
      → config.masque_fallback_enabled ≡ true
      → any_reached http2 call_id (take config.masque_max_proxy_attempts ps) ≡ true
      → is_reached (over_masque net config udp_blocked ps call_id) ≡ true
  unfolding over_masque
  is_reached-over_masque config udp_blocked call_id ps f r = ground (
    arith,
    is_some-first_tunnel http2 call_id (take config.masque_max_proxy_attempts ps),
    any_reached-take http2 call_id config.masque_max_proxy_attempts ps r,
  )

  is_connected-conclude :
      (reason : CallEndReason) (a : Attempt) → is_connected (conclude net reason a) ≡ is_reached a
  is_connected-conclude reason (reached c) = refl
  is_connected-conclude reason missed = refl
  is_connected-conclude reason crashed = refl
  is_connected-conclude reason unsettled = refl

  is_connected-establish_connection :
      (config : VoipConfig) (local_nat : Option NatInfo) (udp_blocked : Bool) (peer : Peer)
      (call_id : String) (ps : List ProxyRecord)
      → is_connected (establish_connection net config local_nat udp_blocked peer call_id ps)
        ≡ is_reached (
            or_try net
              (only_if net (not udp_blocked) (over_udp net local_nat peer))
              (over_masque net config udp_blocked ps call_id))
  unfolding establish_connection
  is_connected-establish_connection config local_nat udp_blocked peer call_id ps =
      is_connected-conclude (failure_reason net local_nat udp_blocked peer ps) _

  -- While the fallback is enabled and one of the first proxies, as many as are configured, is
  -- reached over HTTP/2, a connection is established, whatever the NATs and addresses, UDP blocked
  -- or not: but for a simultaneous open that comes to be tried and panics or is not over, which is
  -- when UDP is not blocked, nothing is reached over IPv6 and one of the NATs is a cone.
  pub establish_connection-reached :
      (config : VoipConfig) (local_nat : Option NatInfo) (udp_blocked : Bool) (peer : Peer)
      (call_id : String) (ps : List ProxyRecord)
      → config.masque_fallback_enabled ≡ true
      → any_reached http2 call_id (take config.masque_max_proxy_attempts ps) ≡ true
      → is_connected (establish_connection net config local_nat udp_blocked peer call_id ps)
        ≡ udp_blocked
          || is_reached (over_ipv6 net peer)
          || not (has_cone net local_nat peer)
          || returns (try_simultaneous_open net peer)
  establish_connection-reached config local_nat true peer call_id ps f r =
      is_connected-establish_connection config local_nat true peer call_id ps
      ∙ is_reached-over_masque config true call_id ps f r
  establish_connection-reached config local_nat false peer call_id ps f r =
      is_connected-establish_connection config local_nat false peer call_id ps
      ∙ (is_reached-or_try (over_udp net local_nat peer) (over_masque net config false ps call_id)
            (is_reached-over_masque config false call_id ps f r)
          ∙ returns-over_udp local_nat peer)

  -- Where UDP is blocked nothing but a tunnel over HTTP/2 connects, and the failure is that UDP is blocked.
  pub establish_connection_udp_blocked :
      (config : VoipConfig) (local_nat : Option NatInfo) (peer : Peer) (call_id : String)
      (ps : List ProxyRecord)
      → (establish_connection net config local_nat true peer call_id ps
          ≡ all_methods_failed failed_udp_blocked)
        ⊎ ((t : MasqueTunnel) × ((try_masque net http2 config ps call_id ≡ some t)
              × (establish_connection net config local_nat true peer call_id ps
                  ≡ connected (record { method = masque_http2; masque_tunnel = some t }))))
  unfolding establish_connection over_masque failure_reason
  establish_connection_udp_blocked config local_nat peer call_id ps =
      elim (Option-cases (try_masque net http2 config ps call_id)) [
        | inl e ↦ inl (ground arith)
        | inr (t, e) ↦ elim (Bool-cases (config.masque_fallback_enabled && not (length ps == 0))) [
          | inl f ↦ inr (t, (e, ground arith))
          | inr f ↦ inl (ground arith)
        ]
      ]
