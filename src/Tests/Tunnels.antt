-- ===== src/Tests/Tunnels.antt =====
-- Media sessions, tunnels and the cascade of connection methods.
use three_pillars_voip.Base.{
  ℕ, ◌≡◌, ◌⊎◌, refl, not, ◌||◌, ◌++◌, true, false, none, some, Option, Bool, String, List, [], ◌∷◌,
  arith, suc, zero,
}
use three_pillars_voip.Base.Bytes.{IsBytes}
use three_pillars_voip.Core.Config
use three_pillars_voip.Core.Types.NatType
use three_pillars_voip.Client.Proxy.Record.{ProxyRecord}
use three_pillars_voip.Client.Moq.Setup.{
  ClientSetup, voip_default, encode, server_setup_bytes, parse_client_setup, ok,
}
use three_pillars_voip.Client.Moq.Setup.RoundTrip.{parse_client_setup-encode}
use three_pillars_voip.Client.Moq.Control.{audio, latest}
use three_pillars_voip.Client.Moq.Session.{MoqSession, new, active, bytes, setup, accept, subscribe}
use three_pillars_voip.Client.Moq.Session.Handshake.{handshake}
use three_pillars_voip.Client.Moq.Session.Subscriptions.{Rising, subscribe-Rising}
use three_pillars_voip.Client.Masque.Capsule.{encode_datagram_capsule, decode_datagram_capsule}
use three_pillars_voip.Client.Masque.Capsule.Long.{is_refused, decode_datagram_capsule_refuses}
use three_pillars_voip.Client.Masque.Tunnel.{
  MasqueTransport, http2, http3, MasqueTunnel, active as up, failed, recover,
}
use three_pillars_voip.Client.Masque.Tunnel.Recovery
use three_pillars_voip.Client.Masque.Tunnel.Recovery.{recover_lem}
use three_pillars_voip.Client.SimultaneousOpen.{
  accept as accept_side, connect as connect_side, Turn, panic, try_simultaneous_open_full,
}
use three_pillars_voip.Client.SimultaneousOpen.Alone.{try_simultaneous_open_full_alone}
use three_pillars_voip.Client.Connection.{
  Net, Peer, establish_connection, over_ipv6, has_cone, try_simultaneous_open,
}
use three_pillars_voip.Client.Connection.Cascade.{
  is_connected, is_reached, returns, establish_connection-reached,
}

abbrev as_read : List ℕ → List ℕ
as_read text = text

handshake_example :
    let (server', e) = accept as_read true (bytes (encode voip_default)) true new in
    let (client', f) = setup as_read true true (bytes server_setup_bytes) new in
    (server'.control_log ≡ server_setup_bytes ∷ [])
    × (client'.control_log ≡ encode voip_default ∷ [])
    × (server'.state ≡ active)
    × (client'.state ≡ active)
    × (e ≡ none)
    × (f ≡ none)
handshake_example = handshake as_read new new refl refl

abbrev in_call : MoqSession
in_call = record new { state = active }

subscribe-Rising_example :
    let s' = (subscribe true (audio (98 ∷ [])) latest in_call).0 in
    Rising 0 s'.subscriptions s'.next_subscribe_id
subscribe-Rising_example =
    subscribe-Rising true (audio (98 ∷ [])) latest in_call (omega arith) (omega arith)

abbrev setup_message : ClientSetup
setup_message = record { versions = 4278190097 ∷ []; role = 3; path = some (47 ∷ 118 ∷ []) }

parse_client_setup-encode_example :
    parse_client_setup as_read (encode setup_message) ≡ ok setup_message
parse_client_setup-encode_example =
    parse_client_setup-encode as_read setup_message (omega arith) (omega arith, tt) (omega arith)
      (omega arith, refl)

abbrev zeros : ℕ → List ℕ
zeros zero = []
zeros (suc n) = 0 ∷ zeros n

zeros-IsBytes : (n : ℕ) → IsBytes (zeros n)
zeros-IsBytes zero = tt
zeros-IsBytes (suc n) = (omega arith, zeros-IsBytes n)

decode_datagram_capsule_refuses_example :
    is_refused (decode_datagram_capsule (encode_datagram_capsule (zeros 64))) ≡ true
decode_datagram_capsule_refuses_example =
    decode_datagram_capsule_refuses (zeros 64) (zeros-IsBytes 64) (omega arith) (omega arith)

abbrev proxy_at : String → ProxyRecord
proxy_at url = record {
  node_id = "relay";
  proxy_url = url;
  capacity = 1;
  region = "";
  latency_hint_ms = 20;
  timestamp = 0;
  ttl_seconds = 3600;
  cert_fingerprint = "";
  signature = [];
}

-- Only the transport over TCP gets through.
abbrev tcp_only : MasqueTransport → String → String → Option String → Bool
tcp_only http3 url call_id token = false
tcp_only http2 url call_id token = true

abbrev lost_tunnel : MasqueTunnel
lost_tunnel = record { proxy_url = "https://a"; transport = http3; call_id = "call"; state = up }

recover_lem_example :
    let (t', recovered) = recover tcp_only (proxy_at "https://b" ∷ []) lost_tunnel in
    (recovered ≡ Recovery.any_reached tcp_only "call" (proxy_at "https://b" ∷ []))
    × (((recovered ≡ true) × Recovery.IsUp tcp_only "call" t')
        ⊎ ((recovered ≡ false) × (t' ≡ record lost_tunnel { state = failed })))
recover_lem_example = recover_lem tcp_only (proxy_at "https://b" ∷ []) lost_tunnel

-- Nothing, then both sides have failed.
abbrev failing_turns : List Turn
failing_turns =
    record { first = accept_side; accepted = none; connected = none; other_finished = false }
    ∷ record {
      first = accept_side;
      accepted = some false;
      connected = some false;
      other_finished = true;
    }
    ∷ []

abbrev blocked_net : Net
blocked_net = record {
  is_address = λ a. true;
  answers = λ a. false;
  race = λ six four. none ∷ none ∷ [];
  turns = λ candidates. failing_turns;
  range_open = λ ip low high. false;
  reaches = tcp_only;
}

abbrev peer : Peer
peer = record {
  ipv6_addresses = "2001:db8::1" ∷ [];
  ipv4_reflexive = "203.0.113.7:4433" ∷ [];
  nat_info = record { nat_type = NatType.symmetric_random; prediction = none };
}

establish_connection-reached_example :
    is_connected blocked_net (
      establish_connection blocked_net Config.default none false peer "call"
        (proxy_at "https://b" ∷ []))
    ≡ false
      || is_reached blocked_net (over_ipv6 blocked_net peer)
      || not (has_cone blocked_net none peer)
      || returns blocked_net (try_simultaneous_open blocked_net peer)
establish_connection-reached_example =
    establish_connection-reached blocked_net Config.default none false peer "call"
      (proxy_at "https://b" ∷ []) refl refl

-- The connecting side fails at once.
abbrev failing_turn : Turn
failing_turn = record {
  first = accept_side;
  accepted = none;
  connected = some false;
  other_finished = false;
}

try_simultaneous_open_full_alone_example :
    try_simultaneous_open_full ([] ++ (failing_turn ∷ failing_turn ∷ [])) ≡ panic
try_simultaneous_open_full_alone_example =
    try_simultaneous_open_full_alone [] [] failing_turn failing_turn connect_side tt refl refl refl
