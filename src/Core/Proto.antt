-- ===== src/Core/Proto.antt =====
-- The enumerations of proto/signaling.proto, which prost turns into Rust enumerations.

pub data NatType : Type 0 where
  nat_none nat_cone nat_symmetric_sequential nat_symmetric_pseudo nat_symmetric_random : NatType

pub data PredictionConfidence : Type 0 where
  sequential pseudo_sequential random : PredictionConfidence

pub data ProbeMethod : Type 0 where
  quic_path_probing : ProbeMethod

pub data DiscoveryMethod : Type 0 where
  discovery_dht discovery_signaling discovery_cache : DiscoveryMethod

pub data MediaType : Type 0 where
  media_audio media_video media_screen : MediaType

pub data CallState : Type 0 where
  call_ringing call_accepted call_connected call_failed call_ended : CallState

pub data SubscriptionState : Type 0 where
  sub_pending sub_active sub_paused sub_ended : SubscriptionState

pub data PeerStatus : Type 0 where
  peer_online peer_offline peer_in_call : PeerStatus

pub data ConnectionMethod : Type 0 where
  conn_none conn_ipv6_direct conn_ipv4_cone conn_ipv4_prediction conn_masque conn_masque_http2 :
      ConnectionMethod

pub data CallEndReason : Type 0 where
  end_normal end_rejected end_timeout end_failed_ipv4_random end_failed_udp_blocked
        end_failed_network end_migration_failed end_failed_masque_unreachable
        end_failed_tcp_blocked :
      CallEndReason
