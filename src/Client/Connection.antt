-- ===== src/Client/Connection.antt =====
-- The cascade of `ConnectionManager`, crates/voip-client/src/connection.rs. What the network lets
-- through is a parameter, the peer's NAT information an argument; a QUIC connection is left out of
-- the result. The reason of a failure goes to the source's log.
pub mod Cascade
use three_pillars_voip.Base.{
  ℕ, zero, suc, Bool, true, false, not, ◌&&◌, ◌||◌, Option, none, some, List, [], ◌∷◌, length, ◌==◌,
  String, if◌then◌else◌, ◌%◌,
}
use three_pillars_voip.Base.Bytes.{take}
use three_pillars_voip.Core.Config.{VoipConfig}
use three_pillars_voip.Core.Types.CallEndReason.{
  CallEndReason, failed_udp_blocked, failed_ipv4_random, failed_masque_unreachable, failed_network,
}
use three_pillars_voip.Core.Types.ConnectionMethod.{
  ConnectionMethod, ipv6_direct, ipv4_cone, ipv4_prediction, masque, masque_http2,
}
use three_pillars_voip.Core.Types.Nat.{NatInfo, PortPredictionData}
use three_pillars_voip.Core.Types.NatType.{NatType, cone, symmetric_random, is_predictable}
use three_pillars_voip.Client.Masque.Tunnel.{MasqueTransport, http3, http2, MasqueTunnel, connect}
use three_pillars_voip.Client.Proxy.Record.{ProxyRecord}
use three_pillars_voip.Client.SimultaneousOpen.{
  Turn, Opened, opened, failed, panic, unfinished, try_simultaneous_open_full,
}

pub record Peer : Type 0 where
  pub ipv6_addresses : List String
  pub ipv4_reflexive : List String
  pub nat_info : NatInfo

pub record VoipConnection : Type 0 where
  pub method : ConnectionMethod
  pub masque_tunnel : Option MasqueTunnel

-- A method may also panic, or still wait when the turns that it is given are over; both end the
-- cascade.
pub data Attempt : Type 0 where
  reached : VoipConnection → Attempt
  missed : Attempt
  crashed : Attempt
  unsettled : Attempt

pub data Established : Type 0 where
  connected : VoipConnection → Established
  all_methods_failed : CallEndReason → Established
  panicked : Established
  waiting : Established

abbrev pub new_direct : ConnectionMethod → VoipConnection
new_direct method = record { method = method; masque_tunnel = none }

-- Which addresses are addresses, which of them answer in time, what the attempts of a race end in,
-- in their order, `some true` a connection over IPv6, the turns of a simultaneous open, which port
-- ranges are open, and which proxies are reached.
pub record Net : Type 0 where
  pub is_address : String → Bool
  pub answers : String → Bool
  pub race : List String → List String → List (Option Bool)
  pub turns : List String → List Turn
  pub range_open : String → ℕ → ℕ → Bool
  pub reaches : MasqueTransport → String → String → Option String → Bool

module _ (net : Net) where
  unfoldable pub addresses : List String → List String
  addresses [] = []
  addresses (a ∷ rest) =
      let others = addresses rest in if net.is_address a then a ∷ others else others

  unfoldable pub any_answers : List String → Bool
  any_answers [] = false
  any_answers (a ∷ rest) = (net.is_address a && net.answers a) || any_answers rest

  abbrev pub is_empty : {A : Type 0} → List A → Bool
  is_empty xs = length xs == 0

  -- The first attempt that ends in a connection wins.
  unfoldable pub happy_eyeballs_connect : List (Option Bool) → Option Bool
  happy_eyeballs_connect [] = none
  happy_eyeballs_connect (none ∷ attempts) = happy_eyeballs_connect attempts
  happy_eyeballs_connect (some is_ipv6 ∷ attempts) = some is_ipv6

  abbrev pub direct : Option Bool → Attempt
  direct none = missed
  direct (some is_ipv6) = reached (new_direct (if is_ipv6 then ipv6_direct else ipv4_cone))

  unfoldable pub try_happy_eyeballs : Peer → Attempt
  unfolding addresses happy_eyeballs_connect
  try_happy_eyeballs peer =
      let ipv6_addrs = addresses peer.ipv6_addresses in
      let ipv4_addrs = addresses peer.ipv4_reflexive in
      if is_empty ipv6_addrs && is_empty ipv4_addrs
      then missed
      else direct (happy_eyeballs_connect (net.race ipv6_addrs ipv4_addrs))

  unfoldable pub try_ipv6_direct : Peer → Attempt
  unfolding any_answers
  try_ipv6_direct peer =
      if any_answers peer.ipv6_addresses then reached (new_direct ipv6_direct) else missed

  -- Where both sides have failed, the addresses are tried one after the other.
  abbrev pub or_sequential : List String → Opened → Attempt
  or_sequential addrs (opened side) = reached (new_direct ipv4_cone)
  or_sequential addrs failed = if any_answers addrs then reached (new_direct ipv4_cone) else missed
  or_sequential addrs panic = crashed
  or_sequential addrs unfinished = unsettled

  unfoldable pub try_simultaneous_open : Peer → Attempt
  unfolding addresses any_answers
  try_simultaneous_open peer =
      let peer_addrs = addresses peer.ipv4_reflexive in
      if is_empty peer_addrs
      then missed
      else or_sequential peer.ipv4_reflexive (try_simultaneous_open_full (net.turns peer_addrs))

  -- Only the peer's prediction is tried; its ports are cut to a `u16`.
  unfoldable pub try_port_prediction : Peer → Attempt
  try_port_prediction peer = elim peer.nat_info.prediction [
    | none ↦ missed
    | some p ↦
        if net.range_open p.external_ip (p.predicted_port_start % 65536)
          (p.predicted_port_end % 65536)
        then reached (new_direct ipv4_prediction)
        else missed
  ]

  unfoldable pub first_tunnel : MasqueTransport → String → List ProxyRecord → Option MasqueTunnel
  first_tunnel transport call_id [] = none
  first_tunnel transport call_id (proxy ∷ rest) =
      let others = first_tunnel transport call_id rest in
      elim (connect net.reaches transport proxy.proxy_url call_id none) [
        | some tunnel ↦ some tunnel
        | none ↦ others
      ]

  -- `try_masque_http3` and `try_masque_http2`: the first proxies, up to the configured number.
  abbrev pub try_masque :
      MasqueTransport → VoipConfig → List ProxyRecord → String → Option MasqueTunnel
  try_masque transport config proxy_records call_id =
      first_tunnel transport call_id (take config.masque_max_proxy_attempts proxy_records)

  abbrev pub through : ConnectionMethod → Option MasqueTunnel → Attempt
  through method none = missed
  through method (some tunnel) = reached (record { method = method; masque_tunnel = some tunnel })

  -- The first of the two that is not missed.
  abbrev pub or_try : Attempt → Attempt → Attempt
  or_try missed next = next
  or_try (reached c) next = reached c
  or_try crashed next = crashed
  or_try unsettled next = unsettled

  abbrev pub only_if : Bool → Attempt → Attempt
  only_if true attempt = attempt
  only_if false attempt = missed

  abbrev has_type : (NatType → Bool) → Option NatInfo → Bool
  has_type test none = false
  has_type test (some info) = test info.nat_type

  abbrev is_cone : NatType → Bool
  is_cone cone = true
  is_cone _ = false

  abbrev is_random : NatType → Bool
  is_random symmetric_random = true
  is_random _ = false

  abbrev pub over_ipv6 : Peer → Attempt
  over_ipv6 peer =
      only_if (not (is_empty peer.ipv6_addresses))
        (if is_empty peer.ipv4_reflexive then try_ipv6_direct peer else try_happy_eyeballs peer)

  abbrev pub has_cone : Option NatInfo → Peer → Bool
  has_cone local_nat peer = has_type is_cone local_nat || is_cone peer.nat_info.nat_type

  abbrev pub predictable : Option NatInfo → Peer → Bool
  predictable local_nat peer =
      has_type is_predictable local_nat || is_predictable peer.nat_info.nat_type

  -- The steps over IPv6 and through the NATs, which all need UDP.
  unfoldable pub over_udp : Option NatInfo → Peer → Attempt
  unfolding is_predictable try_happy_eyeballs try_ipv6_direct try_simultaneous_open
      try_port_prediction
  over_udp local_nat peer = or_try (over_ipv6 peer) (
      or_try (only_if (has_cone local_nat peer) (try_simultaneous_open peer)) (
        only_if (has_type is_predictable local_nat || is_predictable peer.nat_info.nat_type)
          (try_port_prediction peer)))

  unfoldable pub over_masque : VoipConfig → Bool → List ProxyRecord → String → Attempt
  unfolding first_tunnel
  over_masque config udp_blocked proxy_records call_id =
      only_if (config.masque_fallback_enabled && not (is_empty proxy_records)) (
        or_try
          (only_if (not udp_blocked)
            (through masque (try_masque http3 config proxy_records call_id)))
          (through masque_http2 (try_masque http2 config proxy_records call_id)))

  unfoldable pub failure_reason : Option NatInfo → Bool → Peer → List ProxyRecord → CallEndReason
  failure_reason local_nat udp_blocked peer proxy_records =
      if udp_blocked
      then failed_udp_blocked
      else if has_type is_random local_nat && is_random peer.nat_info.nat_type
      then failed_ipv4_random
      else if is_empty proxy_records
      then failed_masque_unreachable
      else failed_network

  abbrev pub conclude : CallEndReason → Attempt → Established
  conclude reason (reached connection) = connected connection
  conclude reason missed = all_methods_failed reason
  conclude reason crashed = panicked
  conclude reason unsettled = waiting

  unfoldable pub establish_connection :
      VoipConfig → Option NatInfo → Bool → Peer → String → List ProxyRecord → Established
  unfolding over_udp over_masque failure_reason
  establish_connection config local_nat udp_blocked peer call_id proxy_records =
      conclude (failure_reason local_nat udp_blocked peer proxy_records) (
        or_try (only_if (not udp_blocked) (over_udp local_nat peer))
          (over_masque config udp_blocked proxy_records call_id))
