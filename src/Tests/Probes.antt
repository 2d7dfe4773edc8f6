-- ===== src/Tests/Probes.antt =====
-- NATs on three probes.
use three_pillars_voip.Base.{ℕ, ◌≡◌, refl, List, [], ◌∷◌}
use three_pillars_voip.Base.Int.{quot}
use three_pillars_voip.Core.Config.{default}
use three_pillars_voip.Core.Types.NatType
use three_pillars_voip.Client.NatProbe.{NatProbeResult, sum, sum_squares, classify_nat}
use three_pillars_voip.Client.NatProbe.Sqrt.{sqrt_from}

abbrev probe : ℕ → NatProbeResult
probe external_port = record {
  server_ip = "198.51.100.1";
  local_port = 5000;
  external_ip = "203.0.113.7";
  external_port = external_port;
  timestamp_ms = 0;
  rtt_ms = 20;
}

abbrev falling : List NatProbeResult
falling = probe 40000 ∷ probe 21000 ∷ probe 2000 ∷ []

falling_sequential :
    (classify_nat 1700000000 falling default).nat_type ≡ NatType.symmetric_sequential
unfolding classify_nat sqrt_from sum_squares quot sum
falling_sequential = refl
