-- ===== src/Client/Masque/Tunnel.antt =====
-- `MasqueTunnel` of crates/voip-client/src/masque.rs. Whether a proxy is reached over a transport is
-- the network's answer, a parameter; the connection itself is not part of the state.
pub mod Recovery
use three_pillars_voip.Base.{
  ℕ, Bool, true, false, not, ◌&&◌, Option, none, some, List, [], ◌∷◌, String, if◌then◌else◌,
}
use three_pillars_voip.Client.Proxy.Record.{ProxyRecord}

pub data MasqueTransport : Type 0 where
  http3 http2 : MasqueTransport

pub data TunnelState : Type 0 where
  not_needed connecting active active_http2 recovering failed : TunnelState

pub is_active : TunnelState → Bool
is_active active = true
is_active active_http2 = true
is_active _ = false

pub is_failed : TunnelState → Bool
is_failed failed = true
is_failed _ = false

pub record MasqueTunnel : Type 0 where
  pub proxy_url : String
  pub transport : MasqueTransport
  pub call_id : String
  pub state : TunnelState

-- For a transport, a proxy's URL, a call and a token.
module _ (reaches : MasqueTransport → String → String → Option String → Bool) where
  -- `connect_http3` and `connect_http2`, which differ in the transport. `none` is an error.
  unfoldable pub connect : MasqueTransport → String → String → Option String → Option MasqueTunnel
  connect transport proxy_url call_id proxy_token =
      if reaches transport proxy_url call_id proxy_token
      then some (record {
        proxy_url = proxy_url;
        transport = transport;
        call_id = call_id;
        state = active;
      })
      else none

  -- `none` is `AllTransportsFailed`.
  unfoldable pub establish_masque_tunnel_with_token :
      String → String → Bool → Option String → Option MasqueTunnel
  establish_masque_tunnel_with_token proxy_url call_id udp_blocked proxy_token =
      let over_tcp = connect http2 proxy_url call_id proxy_token in
      if udp_blocked then over_tcp else elim (connect http3 proxy_url call_id proxy_token) [
        | some tunnel ↦ some tunnel
        | none ↦ over_tcp
      ]

  pub establish_masque_tunnel : String → String → Bool → Option MasqueTunnel
  unfolding establish_masque_tunnel_with_token
  establish_masque_tunnel proxy_url call_id udp_blocked =
      establish_masque_tunnel_with_token proxy_url call_id udp_blocked none

  -- The first proxy that is reached over either transport, HTTP/3 first, without a token.
  unfoldable pub try_proxies : String → List ProxyRecord → Option MasqueTunnel
  unfolding connect
  try_proxies call_id [] = none
  try_proxies call_id (proxy ∷ rest) =
      let others = try_proxies call_id rest in
      elim (connect http3 proxy.proxy_url call_id none) [
        | some tunnel ↦ some tunnel
        | none ↦ elim (connect http2 proxy.proxy_url call_id none) [
          | some tunnel ↦ some tunnel
          | none ↦ others
        ]
      ]

  -- The tunnel, and whether it was recovered.
  unfoldable pub recover : List ProxyRecord → MasqueTunnel → MasqueTunnel × Bool
  recover proxy_records t = elim (try_proxies t.call_id proxy_records) [
    | some new_tunnel ↦ (new_tunnel, true)
    | none ↦ (record t { state = failed }, false)
  ]

pub close : MasqueTunnel → MasqueTunnel
close t = record t { state = failed }
