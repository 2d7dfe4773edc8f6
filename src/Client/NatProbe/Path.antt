-- ===== src/Client/NatProbe/Path.antt =====
-- Probing one path, `probe_single_path` of crates/voip-client/src/nat_probe.rs. What the connection
-- does is an argument; the local port is 0 in the source, too.
pub mod Reflected
use three_pillars_voip.Base.{
  ℕ, ◌%◌, Bool, true, false, not, List, String, length, ltb, ◌==◌, if◌then◌else◌, u32_mod,
}
use three_pillars_voip.Base.Bytes.{take, drop, from_be_bytes}
use three_pillars_voip.Client.NatProbe.{NatProbeResult}
use three_pillars_voip.Client.NatProbe.Cache.{NatProbeError, probe_timeout, migration_failed}
use three_pillars_voip.Client.NatProbe.Response.{
  ParsedProbeResponse, Outcome, returned, panicked, running, parse_path_probe_response,
}

-- An operation of the connection under a timeout.
pub data Io (A : Type 0) : Type 0 where
  timed_out failed : Io A
  done : A → Io A

-- The connection's side of a probe: whether the stream opened, whether the request was sent, and the
-- first bytes read, of which there are at most 1024, or none at the end of the stream.
pub record Exchange : Type 0 where
  pub open_bi : Io Unit
  pub write_all : Bool
  pub read : Io (List ℕ)

pub data ProbedPath : Type 0 where
  found : NatProbeResult → ProbedPath
  refused : NatProbeError → ProbedPath
  lost waiting : ProbedPath

module _ (from_utf8_lossy : List ℕ → String) where
  abbrev concluded : String → (now_ms rtt_ms : ℕ) → Outcome → ProbedPath
  concluded server_ip now_ms rtt_ms (returned r) = found (record {
    server_ip = server_ip;
    local_port = 0;
    external_ip = r.observed_ip;
    external_port = r.observed_port;
    timestamp_ms = now_ms;
    rtt_ms = rtt_ms % u32_mod;
  })
  concluded server_ip now_ms rtt_ms panicked = lost
  concluded server_ip now_ms rtt_ms running = waiting

  -- The bytes that were read, with fuel for the parser.
  unfoldable pub read_answer : ℕ → String → (now_ms rtt_ms : ℕ) → List ℕ → ProbedPath
  read_answer fuel server_ip now_ms rtt_ms bytes =
      if ltb (length bytes) 2
      then refused (migration_failed server_ip)
      else if not (from_be_bytes (take 2 bytes) == 0x0200)
      then refused (migration_failed server_ip)
      else concluded server_ip now_ms rtt_ms
          (parse_path_probe_response from_utf8_lossy fuel (drop 2 bytes))

  unfoldable pub probe_single_path : ℕ → String → (now_ms rtt_ms : ℕ) → Exchange → ProbedPath
  unfolding read_answer
  probe_single_path fuel server_ip now_ms rtt_ms x = elim x.open_bi [
    | timed_out ↦ refused (probe_timeout server_ip)
    | failed ↦ refused (migration_failed server_ip)
    | done _ ↦ if not x.write_all then refused (migration_failed server_ip) else elim x.read [
      | timed_out ↦ refused (probe_timeout server_ip)
      | failed ↦ refused (migration_failed server_ip)
      | done bytes ↦ read_answer fuel server_ip now_ms rtt_ms bytes
    ]
  ]
