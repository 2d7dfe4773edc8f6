-- ===== src/Signaling/Server/Push.antt =====
-- What follows a failure that may be retried, crates/voip-signaling/src/push.rs. The notifier only
-- writes to its log and never fails.
use three_pillars_voip.Base.{
  ℕ, ◌+◌, ◌*◌, ◌%◌, Bool, false, ◌||◌, none, some, String, ◌∷◌, ◌==◌, leb, if◌then◌else◌, u32_mod,
  u64_mod,
}
use three_pillars_voip.Base.Int.{ℤ, pos, negsuc}
use three_pillars_voip.Core.Config.{retry_delay_secs}
use three_pillars_voip.Signaling.Framing.{FramedMessage}
use three_pillars_voip.Signaling.Messages.{PushRetry}
use three_pillars_voip.Signaling.Messages.TypeId
use three_pillars_voip.Signaling.Registry
use three_pillars_voip.Signaling.Server.{Server, World, send, pushed, PushNotification}

unfoldable pub is_retryable_reason : ℤ → Bool
is_retryable_reason (pos n) = n == 3 || n == 4 || n == 7
is_retryable_reason (negsuc n) = false

module _ {Sender : Type 0} (server : Server Sender) where
  unfoldable pub build_push_retry_message : PushRetry → FramedMessage
  build_push_retry_message m = record {
    type_id = TypeId.push_retry;
    payload = server.codec.encode_push_retry m;
  }

  abbrev notification : String → PushRetry → PushNotification
  notification fcm_token m = record {
    fcm_token = fcm_token;
    call_id = m.call_id;
    caller_id = m.caller_id;
    callee_id = m.callee_id;
    reason = m.reason;
    retry_attempt = m.retry_attempt;
    retry_after_ms = m.retry_after_ms;
  }

  -- The push notification, where the peer is held with a token.
  unfoldable pub notify : String → PushRetry → World server → World server
  notify peer_id m w =
      let (app, found) = Registry.get_peer server.peer_cache server.call_cache peer_id w.app in
      let w' : World server = record w { app = app } in
      elim found [
        | none ↦ w'
        | some info ↦ elim info.fcm_token [
          | none ↦ w'
          | some fcm_token ↦ record w' { log = pushed (notification fcm_token m) ∷ w'.log }
        ]
      ]

  unfoldable pub handle_retryable_failure :
      String → String → String → ℤ → String → ℕ → World server → World server
  unfolding build_push_retry_message notify
  handle_retryable_failure call_id caller_id callee_id reason other_peer_id retry_count w =
      let next_attempt = (retry_count + 1) % u32_mod in
      let m : PushRetry = record {
        call_id = call_id;
        caller_id = caller_id;
        callee_id = callee_id;
        reason = reason;
        retry_attempt = next_attempt;
        retry_after_ms = retry_delay_secs server.config next_attempt * 1000 % u64_mod;
      } in
      if leb server.config.push_retry_max_attempts retry_count
      then w
      else notify other_peer_id m (send server other_peer_id (build_push_retry_message m) w).0
