-- ===== src/Client/NatProbe/Response/Hostile.antt =====
-- Answers to a path probe whose lengths wrap, `parse_path_probe_response` of
-- crates/voip-client/src/nat_probe.rs.
use three_pillars_voip.Base.{ℕ, zero, suc, ◌≡◌, refl, ◌∙◌, List, [], ◌∷◌, ◌++◌, arith, String}
use three_pillars_voip.Client.NatProbe.Response.{
  varint_from, panicked, running, step, field, read_ip, skip_length, skip_varint, parse_from,
  parse_path_probe_response, continue, panic,
}
use three_pillars_voip.Client.NatProbe.Response.Answers.{parse_from-next}

-- The server's address with the length 2^64 - 11, which takes ten bytes, and the observed address
-- with the length 2^64 - 1.
abbrev pub looping : List ℕ
looping = 0x0A ∷ 0xF5 ∷ 0xFF ∷ 0xFF ∷ 0xFF ∷ 0xFF ∷ 0xFF ∷ 0xFF ∷ 0xFF ∷ 0xFF ∷ 0x01 ∷ []

abbrev pub panicking : List ℕ
panicking = 0x12 ∷ 0xFF ∷ 0xFF ∷ 0xFF ∷ 0xFF ∷ 0xFF ∷ 0xFF ∷ 0xFF ∷ 0xFF ∷ 0xFF ∷ 0x01 ∷ []

module _ (from_utf8_lossy : List ℕ → String) where
  step-looping :
      (rest : List ℕ) (ip : String) (port : ℕ)
      → step from_utf8_lossy (looping ++ rest) 0 ip port ≡ continue 0 ip port
  unfolding step field varint_from skip_length
  step-looping rest ip port = ground arith

  step-panicking :
      (rest : List ℕ) (ip : String) (port : ℕ)
      → step from_utf8_lossy (panicking ++ rest) 0 ip port ≡ panic
  unfolding step field varint_from skip_length skip_varint read_ip
  step-panicking rest ip port = ground arith

  -- An answer never ends that names the server's address with the length 2^64 - 11, whatever follows:
  -- the position wraps to the field's own start, and no number of rounds is enough.
  pub looping-parse_path_probe_response :
      (fuel : ℕ) (rest : List ℕ)
      → parse_path_probe_response from_utf8_lossy fuel (looping ++ rest) ≡ running
  unfolding parse_from
  looping-parse_path_probe_response zero rest = refl
  looping-parse_path_probe_response (suc fuel) rest =
      parse_from-next from_utf8_lossy fuel (looping ++ rest) 0 "" 0 (continue 0 "" 0)
        (step-looping rest "" 0)
      ∙ looping-parse_path_probe_response fuel rest

  -- An answer panics that names the observed address with the length 2^64 - 1, whatever follows.
  pub panicking-parse_path_probe_response :
      (fuel : ℕ) (rest : List ℕ)
      → parse_path_probe_response from_utf8_lossy (suc fuel) (panicking ++ rest) ≡ panicked
  panicking-parse_path_probe_response fuel rest =
      parse_from-next from_utf8_lossy fuel (panicking ++ rest) 0 "" 0 panic
        (step-panicking rest "" 0)
