-- ===== src/Core/Config.antt =====
-- The configuration, crates/voip-core/src/config.rs. Durations are numbers of seconds or
-- milliseconds, as the fields' names say.
pub mod Bounds
use three_pillars_voip.Base.{
  ℕ, ◌+◌, ◌-◌, ◌*◌, ◌%◌, ◌^◌, Bool, true, false, List, [], String, ◌==◌, if◌then◌else◌, min, max,
  u32_mod, u64_mod,
}

pub record VoipConfig : Type 0 where
  pub path_probe_count : ℕ
  pub path_probe_timeout_ms : ℕ
  pub nat_cache_ttl_secs : ℕ
  pub path_refresh_count : ℕ
  pub nat_delta_variance_threshold : ℕ
  pub prediction_margin_sequential : ℕ
  pub prediction_margin_pseudo : ℕ
  pub prediction_max_probes : ℕ
  pub quic_connect_timeout_ms : ℕ
  pub quic_prediction_timeout_ms : ℕ
  pub quic_idle_timeout_ms : ℕ
  pub quic_alpn : String
  pub discovery_privacy_first : Bool
  pub dht_lookup_timeout_ms : ℕ
  pub dht_bootstrap_nodes : List String
  pub dht_record_ttl_secs : ℕ
  pub push_retry_enabled : Bool
  pub push_retry_initial_delay_secs : ℕ
  pub push_retry_max_attempts : ℕ
  pub push_retry_backoff_multiplier : ℕ
  pub masque_fallback_enabled : Bool
  pub masque_discovery_timeout_ms : ℕ
  pub masque_connect_timeout_ms : ℕ
  pub masque_max_proxy_attempts : ℕ
  pub masque_proxy_enabled : Bool
  pub masque_proxy_max_sessions : ℕ
  pub call_ring_timeout_ms : ℕ
  pub call_connect_timeout_ms : ℕ
  pub migration_path_timeout_ms : ℕ
  pub migration_max_reprobes : ℕ
  pub rate_limit_calls_per_min : ℕ
  pub rate_limit_registrations_per_min : ℕ
  pub rate_limit_ws_messages_per_sec : ℕ
  pub jwt_expiry_secs : ℕ
  pub signaling_server_ips : List String
  pub session_ticket_ttl_secs : ℕ
  pub moq_feedback_interval_ms : ℕ
  pub ws_idle_timeout_secs : ℕ

abbrev pub default : VoipConfig
default = record {
  path_probe_count = 5;
  path_probe_timeout_ms = 1000;
  nat_cache_ttl_secs = 300;
  path_refresh_count = 2;
  nat_delta_variance_threshold = 3;
  prediction_margin_sequential = 3;
  prediction_margin_pseudo = 8;
  prediction_max_probes = 17;
  quic_connect_timeout_ms = 5000;
  quic_prediction_timeout_ms = 3000;
  quic_idle_timeout_ms = 30000;
  quic_alpn = "moq-00";
  discovery_privacy_first = true;
  dht_lookup_timeout_ms = 200;
  dht_bootstrap_nodes = [];
  dht_record_ttl_secs = 3600;
  push_retry_enabled = true;
  push_retry_initial_delay_secs = 5;
  push_retry_max_attempts = 3;
  push_retry_backoff_multiplier = 3;
  masque_fallback_enabled = true;
  masque_discovery_timeout_ms = 2000;
  masque_connect_timeout_ms = 3000;
  masque_max_proxy_attempts = 3;
  masque_proxy_enabled = false;
  masque_proxy_max_sessions = 10;
  call_ring_timeout_ms = 30000;
  call_connect_timeout_ms = 10000;
  migration_path_timeout_ms = 5000;
  migration_max_reprobes = 1;
  rate_limit_calls_per_min = 10;
  rate_limit_registrations_per_min = 6;
  rate_limit_ws_messages_per_sec = 30;
  jwt_expiry_secs = 3600;
  signaling_server_ips = [];
  session_ticket_ttl_secs = 86400;
  moq_feedback_interval_ms = 1000;
  ws_idle_timeout_secs = 300;
}

-- The power and the product wrap at the width of a `u64`.
unfoldable pub retry_delay_secs : VoipConfig → ℕ → ℕ
retry_delay_secs c attempt =
    if attempt == 0
    then 0
    else c.push_retry_initial_delay_secs
      * (c.push_retry_backoff_multiplier ^ (attempt - 1) % u64_mod)
      % u64_mod

abbrev pub saturating_add : ℕ → ℕ → ℕ
saturating_add a b = min (a + b) (u32_mod - 1)

abbrev prediction_range : ℕ → ℕ → ℕ × ℕ
prediction_range margin base_port =
    (max (base_port - margin) 1024, min (saturating_add base_port margin) 65535)

pub sequential_prediction_range : VoipConfig → ℕ → ℕ × ℕ
sequential_prediction_range c = prediction_range c.prediction_margin_sequential

pub pseudo_prediction_range : VoipConfig → ℕ → ℕ × ℕ
pseudo_prediction_range c = prediction_range c.prediction_margin_pseudo
