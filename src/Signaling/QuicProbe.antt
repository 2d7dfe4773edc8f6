-- ===== src/Signaling/QuicProbe.antt =====
-- The answer to a QUIC path probe, crates/voip-signaling/src/quic_probe.rs. The listener is a stub in
-- the source. What prost encodes is a parameter.
use three_pillars_voip.Base.{ℕ, List, String}
use three_pillars_voip.Signaling.Framing.{FramedMessage, to_bytes}

pub record PathProbeResponse : Type 0 where
  pub server_ip : String
  pub observed_ip : String
  pub observed_port : ℕ
  pub timestamp_ms : ℕ

abbrev pub path_probe_response : ℕ
path_probe_response = 0x0200

module _ (encode_to_vec : PathProbeResponse → List ℕ) where
  unfoldable pub build_path_probe_response :
      String → String → (observed_port timestamp_ms : ℕ) → FramedMessage
  build_path_probe_response server_ip observed_ip observed_port timestamp_ms = record {
    type_id = path_probe_response;
    payload = encode_to_vec (record {
      server_ip = server_ip;
      observed_ip = observed_ip;
      observed_port = observed_port;
      timestamp_ms = timestamp_ms;
    });
  }

  unfoldable pub encode_path_probe_response : ℕ → String → String → ℕ → List ℕ
  unfolding build_path_probe_response
  encode_path_probe_response now_ms server_ip observed_ip observed_port =
      to_bytes (build_path_probe_response server_ip observed_ip observed_port now_ms)

  -- An address is its text and its port, a `u16`.
  unfoldable pub handle_path_migration : ℕ → String → String × ℕ → List ℕ
  unfolding encode_path_probe_response
  handle_path_migration now_ms server_ip (observed_ip, observed_port) =
      encode_path_probe_response now_ms server_ip observed_ip observed_port
