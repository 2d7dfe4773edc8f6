-- ===== src/Client/Masque/Tunnel/Recovery.antt =====
-- What becomes of a tunnel whose proxy is gone, crates/voip-client/src/masque.rs.
use three_pillars_voip.Base.{
  ◌≡◌, ◌⊎◌, ◌↔◌, refl, inl, inr, Bool, true, false, not, ◌||◌, ◌&&◌, Option, none, some, List, [],
  ◌∷◌, String, arith, Bool-cases,
}
use three_pillars_voip.Client.Proxy.Record.{ProxyRecord}
use three_pillars_voip.Client.Masque.Tunnel.{
  MasqueTransport, http3, http2, MasqueTunnel, active, failed, connect, try_proxies, recover,
  establish_masque_tunnel_with_token,
}

module _ (reaches : MasqueTransport → String → String → Option String → Bool) where
  abbrev pub is_reached : String → Option String → String → Bool
  is_reached call_id token url = reaches http3 url call_id token || reaches http2 url call_id token

  abbrev pub any_reached : String → List ProxyRecord → Bool
  any_reached call_id [] = false
  any_reached call_id (p ∷ ps) = is_reached call_id none p.proxy_url || any_reached call_id ps

  -- A tunnel for the call, over a transport that reaches its proxy.
  abbrev pub IsUp : String → MasqueTunnel → Type 0
  IsUp call_id t =
      (t.call_id ≡ call_id)
      × (t.state ≡ active)
      × (reaches t.transport t.proxy_url call_id none ≡ true)

  abbrev up : MasqueTransport → String → String → MasqueTunnel
  up transport call_id url = record {
    proxy_url = url;
    transport = transport;
    call_id = call_id;
    state = active;
  }

  try_proxies_lem :
      (call_id : String) (ps : List ProxyRecord)
      → ((any_reached call_id ps ≡ true)
          × ((t : MasqueTunnel) × ((try_proxies reaches call_id ps ≡ some t) × IsUp call_id t)))
        ⊎ ((any_reached call_id ps ≡ false) × (try_proxies reaches call_id ps ≡ none))
  unfolding try_proxies connect
  try_proxies_lem call_id [] = ground arith
  try_proxies_lem call_id (p ∷ ps) = elim (Bool-cases (reaches http3 p.proxy_url call_id none)) [
    | inl e ↦ inl (ground arith, (up http3 call_id p.proxy_url, (ground arith, (refl, refl, e))))
    | inr e ↦ elim (Bool-cases (reaches http2 p.proxy_url call_id none)) [
      | inl f ↦ inl (ground arith, (up http2 call_id p.proxy_url, (ground arith, (refl, refl, f))))
      | inr f ↦ elim (try_proxies_lem call_id ps) [
        | inl (a, (t, (q, u))) ↦ inl (ground arith, (t, (ground arith, u)))
        | inr (a, q) ↦ inr (ground arith, ground arith)
      ]
    ]
  ]

  -- The recovery of a tunnel succeeds exactly when one of the proxies is reached over HTTP/3 or HTTP/2; the
  -- tunnel is then active for the same call over a transport that reaches its proxy, and otherwise it is the
  -- old one, failed.
  pub recover_lem :
      (ps : List ProxyRecord) (t : MasqueTunnel)
      → let (t', recovered) = recover reaches ps t in
        (recovered ≡ any_reached t.call_id ps)
        × (((recovered ≡ true) × IsUp t.call_id t')
            ⊎ ((recovered ≡ false) × (t' ≡ record t { state = failed })))
  unfolding recover
  recover_lem ps t = ground (arith, try_proxies_lem t.call_id ps)

  -- Where HTTP/2 reaches the proxy, or UDP is not blocked and HTTP/3 does, a tunnel is established, and
  -- never over HTTP/3 where UDP is blocked; otherwise none is.
  pub establish_masque_tunnel_with_token_lem :
      (url call_id : String) (udp_blocked : Bool) (token : Option String)
      → let direct = not udp_blocked && reaches http3 url call_id token in
        (establish_masque_tunnel_with_token reaches url call_id udp_blocked token ≡ none)
        ↔ ((direct ≡ false) × (reaches http2 url call_id token ≡ false))
  unfolding establish_masque_tunnel_with_token connect
  establish_masque_tunnel_with_token_lem url call_id udp_blocked token =
      (λ h. ground arith, λ h. ground arith)
