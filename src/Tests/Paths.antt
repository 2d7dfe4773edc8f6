-- ===== src/Tests/Paths.antt =====
-- Probing a NAT: the answer to a probe, the cache and its refresh on small inputs.
use text.Mathlib.Text.{◌==◌ as str_eq}
use three_pillars_voip.Base.{
  ◌==◌, if◌then◌else◌, ℕ, ◌+◌, ◌/◌, ◌%◌, ◌≡◌, refl, true, Option, none, some, List, [], ◌∷◌, ◌++◌,
  String, arith, u32_mod,
}
use three_pillars_voip.Base.Bytes.{to_be_bytes}
use three_pillars_voip.Base.Int.{pos}
use three_pillars_voip.Client.NatProbe.{NatProbeResult, classify_nat, contains_colon}
use three_pillars_voip.Client.NatProbe.Cache
use three_pillars_voip.Client.NatProbe.Cache.{
  NatProbeCache, NatProber, ok, probe, cached_nat_info, gather,
}
use three_pillars_voip.Client.NatProbe.Cache.Locked.{RwLock, quick_refresh}
use three_pillars_voip.Client.NatProbe.Cache.Faithful.{dated}
use three_pillars_voip.Client.NatProbe.Cache.Refresh.{
  confirmed, cached_nat_info-probe, quick_refresh-probe,
}
use three_pillars_voip.Client.NatProbe.Path.{done, found, probe_single_path}
use three_pillars_voip.Client.NatProbe.Path.Reflected.{
  fields_of, probe_single_path-handle_path_migration,
}
use three_pillars_voip.Client.NatProbe.Response.{running, parse_path_probe_response}
use three_pillars_voip.Client.NatProbe.Response.Answers.{
  outcome_of, parse_path_probe_response-encode_fields,
}
use three_pillars_voip.Client.NatProbe.Response.Fields.{
  Field, cut, varint_field, delimited, fixed32, encode_ending, encode_fields, encode_field,
  read_fields,
}
use three_pillars_voip.Client.NatProbe.Response.Varint.{leb128}
use three_pillars_voip.Client.NatProbe.Response.Hostile.{looping, looping-parse_path_probe_response}
use three_pillars_voip.Core.Config
use three_pillars_voip.Core.Types.PredictionConfidence
use three_pillars_voip.Core.Config.{VoipConfig}
use three_pillars_voip.Signaling.Framing.{to_bytes, encode_message}
use three_pillars_voip.Signaling.QuicProbe.{handle_path_migration}

-- Texts of two addresses, each by one byte.
abbrev text_of : List ℕ → String
text_of [] = ""
text_of (b ∷ bs) = if b == 0 then "198.51.100.1" else "203.0.113.7"

abbrev bytes_of : String → List ℕ
bytes_of s = if str_eq s "198.51.100.1" then 0 ∷ [] else 1 ∷ []

abbrev answer_fields : List Field
answer_fields =
    delimited 1 (0 ∷ [])
    ∷ varint_field 3 40000
    ∷ fixed32 9 (1 ∷ 2 ∷ 3 ∷ 4 ∷ [])
    ∷ delimited 2 (1 ∷ [])
    ∷ []

-- A group begins behind them.
parse_path_probe_response-encode_fields_example :
    parse_path_probe_response text_of 5
      (encode_fields answer_fields ++ encode_ending (cut 7 3 (24 ∷ 80 ∷ [])))
    ≡ outcome_of text_of (read_fields text_of answer_fields "" 0)
unfolding encode_fields encode_field leb128 encode_ending
parse_path_probe_response-encode_fields_example =
    parse_path_probe_response-encode_fields text_of answer_fields (cut 7 3 (24 ∷ 80 ∷ [])) 5
      (omega arith, ((omega arith, omega arith), ((omega arith, refl), (omega arith, tt))))
      (omega arith, omega arith, omega arith, λ h. omega arith) (omega arith) (omega arith)

looping-parse_path_probe_response_example :
    parse_path_probe_response text_of 1000 (looping ++ (1 ∷ 2 ∷ [])) ≡ running
looping-parse_path_probe_response_example =
    looping-parse_path_probe_response text_of 1000 (1 ∷ 2 ∷ [])

probe_single_path-handle_path_migration_example :
    probe_single_path text_of 5 "198.51.100.1" 1700000000050 50 (record {
      open_bi = done tt;
      write_all = true;
      read = done (
          handle_path_migration
            (λ r. encode_fields (fields_of bytes_of r))
            1700000000000
            "198.51.100.1"
            ("203.0.113.7", 40000));
    })
    ≡ found (record {
      server_ip = "198.51.100.1";
      local_port = 0;
      external_ip = "203.0.113.7";
      external_port = 40000;
      timestamp_ms = 1700000000050;
      rtt_ms = 50 % u32_mod;
    })
unfolding handle_path_migration to_bytes encode_message encode_fields encode_field leb128
    to_be_bytes
probe_single_path-handle_path_migration_example =
    probe_single_path-handle_path_migration text_of bytes_of
      (λ r. encode_fields (fields_of bytes_of r)) (λ r. refl) "198.51.100.1" "203.0.113.7" 40000
      1700000000000 1700000000050 50 refl (omega arith) (omega arith) (omega arith) (omega arith)
      (omega arith) (omega arith)

abbrev result : ℕ → NatProbeResult
result port = record {
  server_ip = "198.51.100.1";
  local_port = 0;
  external_ip = "203.0.113.7";
  external_port = port;
  timestamp_ms = 1700000000000;
  rtt_ms = 20;
}

-- A NAT whose next port is the last one and 1.
abbrev sequential_path : String → ℕ → Option NatProbeResult
sequential_path ip i = some (result (40000 + i))

abbrev config : VoipConfig
config = record Config.default { signaling_server_ips = "a" ∷ "b" ∷ "c" ∷ [] }

abbrev prober : NatProber
prober = Cache.new config

cached_nat_info-probe_example :
    let info = classify_nat 1700000000 (result 40000 ∷ result 40001 ∷ result 40002 ∷ []) config in
    let (q, answer) = probe sequential_path 1700000000 1700000000000 prober in
    (answer ≡ ok info)
    × (cached_nat_info 1700000299999 q ≡ some (dated (1700000000000 / 1000) info))
unfolding Cache.new gather contains_colon
cached_nat_info-probe_example =
    cached_nat_info-probe sequential_path 1700000000 1700000000000 1700000299999 prober
      (result 40000) (result 40001 ∷ result 40002 ∷ []) refl (omega arith) refl (refl, refl)
      (omega arith) (omega arith)

abbrev remembered : NatProbeCache
remembered = record {
  probes = result 40000 ∷ result 40001 ∷ result 40002 ∷ [];
  average_delta = pos 1;
  delta_variance = 0;
  confidence = PredictionConfidence.sequential;
  cache_timestamp = 1700000000000;
  cache_ttl_seconds = 300;
}

abbrev refreshing : NatProber
refreshing = record prober { cache = some remembered }

-- A lock for one task.
data Guard : Type 0 where
  nobody : Guard
  reader : Guard
  writer : Guard

abbrev read_guard : Guard → Option Guard
read_guard writer = none
read_guard _ = some reader

abbrev write_guard : Guard → Option Guard
write_guard nobody = some writer
write_guard _ = none

abbrev one_task : RwLock
one_task = record {
  Lock = Guard;
  free = nobody;
  reading = reader;
  writing = writer;
  read = read_guard;
  write = write_guard;
  drop_guard = λ guard. nobody;
  read-free = refl;
  write-free = refl;
  read-writing = refl;
  write-writing = refl;
  write-reading = refl;
  drop_guard-reading = refl;
  drop_guard-writing = refl;
}

quick_refresh-probe_example :
    quick_refresh one_task sequential_path sequential_path 1700000200 1700000200000
      (nobody, refreshing)
    ≡ (let (q, answer) = probe sequential_path 1700000200 1700000200000 refreshing in
        if confirmed sequential_path refreshing then none else some ((nobody, q), answer))
quick_refresh-probe_example =
    quick_refresh-probe sequential_path one_task sequential_path 1700000200 1700000200000 refreshing
