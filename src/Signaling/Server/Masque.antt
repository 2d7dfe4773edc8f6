-- ===== src/Signaling/Server/Masque.antt =====
-- The coordination of relays, crates/voip-signaling/src/masque.rs.
use three_pillars_voip.Base.{ℕ, Bool, true, false, ◌||◌, Option, none, some, String, List, [], ◌∷◌}
use three_pillars_voip.Core.Types.NatType.{NatType, symmetric_random}
use three_pillars_voip.Signaling.Errors.{SignalingError, masque_no_proxy}
use three_pillars_voip.Signaling.Framing.{FramedMessage}
use three_pillars_voip.Signaling.Messages.{ProxyToken}
use three_pillars_voip.Signaling.Messages.TypeId
use three_pillars_voip.Signaling.Registry.{ProxyInfo}
use three_pillars_voip.Signaling.Server.{Server, World, send}

abbrev both_random : NatType → NatType → Bool
both_random symmetric_random symmetric_random = true
both_random _ _ = false

unfoldable pub detect_masque_need : NatType → NatType → Bool → Bool
detect_masque_need caller_nat callee_nat udp_blocked =
    both_random caller_nat callee_nat || udp_blocked

unfoldable pub select_proxy : List ProxyInfo → Option ProxyInfo
select_proxy [] = none
select_proxy (p ∷ ps) = some p

module _ {Sender : Type 0} (server : Server Sender) where
  -- Signed without its signature, then given it.
  unfoldable pub issue_proxy_token : ℕ → String → String → ProxyToken
  issue_proxy_token issued_at peer_id target_peer_id =
      let unsigned : ProxyToken = record {
        peer_id = peer_id;
        target_peer_id = target_peer_id;
        issued_at = issued_at;
        ttl_seconds = 60;
        signature = [];
      } in
      record unsigned { signature = server.sign (server.codec.encode_proxy_token unsigned) }

  unfoldable pub relay_message : ℕ → String → ProxyInfo → String → String → FramedMessage
  unfolding issue_proxy_token
  relay_message secs call_id proxy peer_id target_peer_id = record {
    type_id = TypeId.masque_relay_needed;
    payload = server.codec.encode_relay_needed (record {
      call_id = call_id;
      proxy_url = proxy.proxy_url;
      wait_timeout_ms = 10000;
      proxy_token = some (issue_proxy_token secs peer_id target_peer_id);
    });
  }

  -- To the caller and then to the callee; the first failure ends it.
  unfoldable pub send_relay_needed :
      ℕ → String → String → String → World server → World server × Option SignalingError
  unfolding select_proxy relay_message
  send_relay_needed secs call_id caller_id callee_id w = elim (select_proxy w.app.proxies) [
    | none ↦ (w, some masque_no_proxy)
    | some proxy ↦
        let (w', e) =
          send server caller_id (relay_message secs call_id proxy caller_id callee_id) w in
        elim e [
          | some e ↦ (w', some e)
          | none ↦ send server callee_id (relay_message secs call_id proxy callee_id caller_id) w'
        ]
  ]
