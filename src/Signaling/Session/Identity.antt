-- ===== src/Signaling/Session/Identity.antt =====
-- What a registration does to the identity of a session, crates/voip-signaling/src/session.rs.
use text.Mathlib.TextPositions.{eq_refl}
use three_pillars_voip.Base.{
  ℕ, ◌≡◌, ◌⊎◌, inl, inr, refl, ◌∙◌, Bool, true, false, Option, none, some, List, [], ◌∷◌, String,
  arith, if◌then◌else◌,
}
use three_pillars_voip.Signaling.Errors.{SignalingError, peer_offline, rate_limited_code}
use three_pillars_voip.Signaling.Framing.{FramedMessage}
use three_pillars_voip.Signaling.Messages.{PeerRegister}
use three_pillars_voip.Signaling.RateLimit
use three_pillars_voip.Signaling.Registry.{PeerInfo, register_peer, refreshed, send_to_peer}
use three_pillars_voip.Signaling.Server.{Server, World, Sent, reply, to_peer, error_message, send}
use three_pillars_voip.Signaling.Session.{
  Session, register, registered, limited, refuse, peer_info, ws_handle_peer_register,
}

module _ {Sender : Type 0} (server : Server Sender) where
  holds_registered :
      (secs : ℕ) (msg : PeerRegister) (s : Session server)
      → server.peer_cache.peek msg.peer_id (registered server secs msg s).world.app.peers
        ≡ some (record { info = peer_info server secs msg; sender = some s.tx })
  unfolding register_peer
  holds_registered secs msg s = ground (
    arith,
    eq_refl msg.peer_id,
    server.peer_cache.peek-put msg.peer_id
        (record { info = peer_info server secs msg; sender = some s.tx }) s.world.app.peers,
    server.peer_cache.peek-modify msg.peer_id msg.peer_id
        (refreshed server.peer_cache server.call_cache (peer_info server secs msg) (some s.tx))
        s.world.app.peers,
  )

  -- What is sent, to whom, by whichever sessions.
  abbrev pub send_all : List (String × FramedMessage) → World server → World server
  send_all [] w = w
  send_all ((peer, m) ∷ rest) w = send_all rest (send server peer m w).0

  peek-send :
      (k peer : String) (m : FramedMessage) (w : World server)
      → server.peer_cache.peek k (send server peer m w).0.app.peers
        ≡ server.peer_cache.peek k w.app.peers
  unfolding send send_to_peer
  peek-send k peer m w = ground (arith, server.peer_cache.peek-get peer k w.app.peers)

  peek-send_all :
      (k : String) (sent : List (String × FramedMessage)) (w : World server)
      → server.peer_cache.peek k (send_all sent w).app.peers ≡ server.peer_cache.peek k w.app.peers
  peek-send_all k [] w = refl
  peek-send_all k ((peer, m) ∷ rest) w =
      peek-send_all k rest (send server peer m w).0 ∙ peek-send k peer m w

  -- What becomes of a message that goes into a channel: it is delivered when the channel takes it, and
  -- the peer is offline otherwise.
  abbrev pub into :
      Sender → String → FramedMessage → World server → List Sent × Option SignalingError
  into tx peer m w =
      if server.delivers tx m
      then (to_peer peer m ∷ w.log, none)
      else (w.log, some (peer_offline peer))

  send-into :
      (tx : Sender) (info : PeerInfo) (peer : String) (m : FramedMessage) (w : World server)
      → server.peer_cache.peek peer w.app.peers ≡ some (record { info = info; sender = some tx })
      → let (w', e) = send server peer m w in (w'.log, e) ≡ into tx peer m w
  unfolding send send_to_peer
  send-into tx info peer m w h = ground (arith, h, server.peer_cache.get-peek peer w.app.peers)

  -- A registration, by a session that acts for any peer or none, of any peer, whoever holds that
  -- peer's channel. When the rate limit refuses it, the session acts for whom it did, the peers
  -- are as they were and the refusal is the reply. Otherwise the session acts for the peer that
  -- the message names, and after any messages that are sent to any peers, a message that is sent
  -- to that peer goes into this session's channel: delivered when the channel takes it, the peer
  -- offline otherwise.
  pub register_takes_over :
      (now secs : ℕ) (payload : List ℕ) (msg : PeerRegister) (limiter : RateLimit.RateLimiter)
      (allowed : Bool) (s s' : Session server) (sent : List (String × FramedMessage))
      (m : FramedMessage)
      → server.codec.decode_peer_register payload ≡ some msg
      → RateLimit.check now msg.peer_id RateLimit.registration s.world.app.rate_limiter
        ≡ some (limiter, allowed)
      → ws_handle_peer_register server now secs payload s ≡ some s'
      → let w = send_all sent s'.world in
        let (w', e) = send server msg.peer_id m w in
        ((allowed ≡ false)
          × (s'.peer_id ≡ s.peer_id)
          × (s'.world.app.peers ≡ s.world.app.peers)
          × (s'.world.log
              ≡ reply (error_message server rate_limited_code "registration rate limit exceeded")
                ∷ s.world.log))
        ⊎ ((allowed ≡ true)
            × (s'.peer_id ≡ some msg.peer_id)
            × ((w'.log, e) ≡ into s.tx msg.peer_id m w))
  unfolding ws_handle_peer_register register refuse
  register_takes_over now secs payload msg limiter false s s' sent m d a r =
      let e : s'
          ≡ refuse server rate_limited_code "registration rate limit exceeded"
              (limited server limiter s) =
        ground (arith, d, a, r) in
      rw e (inl (refl, refl, refl, refl))
  register_takes_over now secs payload msg limiter true s s' sent m d a r =
      let e : s' ≡ registered server secs msg (limited server limiter s) =
        ground (arith, d, a, r) in
      let held : server.peer_cache.peek msg.peer_id (send_all sent s'.world).app.peers
          ≡ some (record { info = peer_info server secs msg; sender = some s.tx }) =
        peek-send_all msg.peer_id sent s'.world
        ∙ rw e (holds_registered secs msg (limited server limiter s)) in
      let acts : s'.peer_id ≡ some msg.peer_id = rw e refl in
      inr (
        refl,
        acts,
        send-into s.tx (peer_info server secs msg) msg.peer_id m (send_all sent s'.world) held,
      )
