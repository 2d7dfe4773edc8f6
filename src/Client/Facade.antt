-- ===== src/Client/Facade.antt =====
-- The entry point of the library, `Client` of crates/voip-client/src/client.rs. The lock around its
-- state is held through each operation.
pub mod Calls
use three_pillars_voip.Base.{ℕ, Bool, true, false, not, Option, none, some, String, if◌then◌else◌}
use three_pillars_voip.Core.Config.{VoipConfig}
use three_pillars_voip.Core.Proto.{ConnectionMethod}

pub data CallState : Type 0 where
  idle ringing incoming connected ended : CallState

abbrev pub is_idle : CallState → Bool
is_idle idle = true
is_idle _ = false

abbrev pub is_incoming : CallState → Bool
is_incoming incoming = true
is_incoming _ = false

abbrev pub is_connected : CallState → Bool
is_connected connected = true
is_connected _ = false

-- The loss is the bits of an `f32`.
pub record ConnectionInfo : Type 0 where
  pub method : ConnectionMethod
  pub rtt_ms : ℕ
  pub packet_loss_pct : ℕ
  pub jitter_ms : ℕ

pub record CallStats : Type 0 where
  pub duration_secs : ℕ
  pub bytes_sent : ℕ
  pub bytes_received : ℕ
  pub packets_sent : ℕ
  pub packets_received : ℕ
  pub packets_lost : ℕ

abbrev pub no_stats : CallStats
no_stats = record {
  duration_secs = 0;
  bytes_sent = 0;
  bytes_received = 0;
  packets_sent = 0;
  packets_received = 0;
  packets_lost = 0;
}

pub record ClientInner : Type 0 where
  pub config : VoipConfig
  pub state : CallState
  pub connection_info : Option ConnectionInfo
  pub call_stats : CallStats
  pub is_muted : Bool
  pub current_peer_id : Option String

pub data Answer : Type 0 where
  ok call_in_progress no_active_call : Answer

abbrev pub new : VoipConfig → ClientInner
new config = record {
  config = config;
  state = idle;
  connection_info = none;
  call_stats = no_stats;
  is_muted = false;
  current_peer_id = none;
}

unfoldable pub call : String → ClientInner → ClientInner × Answer
call peer_id c =
    if not (is_idle c.state)
    then (c, call_in_progress)
    else (record c { state = ringing; current_peer_id = some peer_id; call_stats = no_stats }, ok)

unfoldable pub hangup : ClientInner → ClientInner × Answer
hangup c =
    if is_idle c.state
    then (c, no_active_call)
    else (record c { state = ended; current_peer_id = none; connection_info = none }, ok)

unfoldable pub mute : ClientInner → ClientInner × Answer
mute c =
    if not (is_connected c.state) then (c, no_active_call) else (record c { is_muted = true }, ok)

unfoldable pub unmute : ClientInner → ClientInner × Answer
unmute c =
    if not (is_connected c.state) then (c, no_active_call) else (record c { is_muted = false }, ok)

unfoldable pub accept : ClientInner → ClientInner × Answer
accept c =
    if not (is_incoming c.state) then (c, no_active_call) else (record c { state = connected }, ok)

unfoldable pub reject : ClientInner → ClientInner × Answer
reject c =
    if not (is_incoming c.state)
    then (c, no_active_call)
    else (record c { state = ended; current_peer_id = none }, ok)

unfoldable pub shutdown : ClientInner → ClientInner × Answer
shutdown c = (record c { state = idle; current_peer_id = none; connection_info = none }, ok)

-- The calls of the library's user. `init` only logs.
pub data Op : Type 0 where
  init_op : Op
  call_op : String → Op
  hangup_op mute_op unmute_op accept_op reject_op shutdown_op : Op

unfoldable pub step : Op → ClientInner → ClientInner × Answer
unfolding call hangup mute unmute accept reject shutdown
step init_op c = (c, ok)
step (call_op peer_id) c = call peer_id c
step hangup_op c = hangup c
step mute_op c = mute c
step unmute_op c = unmute c
step accept_op c = accept c
step reject_op c = reject c
step shutdown_op c = shutdown c
