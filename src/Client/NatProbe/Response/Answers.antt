-- ===== src/Client/NatProbe/Response/Answers.antt =====
-- The whole answer to a path probe, `parse_path_probe_response` of
-- crates/voip-client/src/nat_probe.rs.
use three_pillars_voip.Base.{
  ℕ, zero, suc, ◌+◌, ◌%◌, ◌^◌, ◌<◌, ◌≤◌, ◌≡◌, refl, false, ap, ◌∙◌, sym, List, [], ◌∷◌, ◌++◌,
  append_assoc, length, ltb, arith, String,
}
use three_pillars_voip.Base.Bytes.{drop}
use three_pillars_voip.Client.NatProbe.Response.{
  Next, stop, Outcome, returned, proceed, step, parse_from, parse_path_probe_response,
}
use three_pillars_voip.Client.NatProbe.Response.Fields.{
  Field, AreFields, Ending, whole, cut, IsEnding, encode_ending, step-cut, encode_field,
  encode_fields, read_field, read_fields, step-field, past, length-past, length-drop,
}

module _ (from_utf8_lossy : List ℕ → String) where
  append-nil : (bytes : List ℕ) → bytes ++ [] ≡ bytes
  append-nil [] = refl
  append-nil (b ∷ bytes) = ap (λ x. b ∷ x) (append-nil bytes)

  abbrev pub outcome_of : String × ℕ → Outcome
  outcome_of (ip, port) = returned (record { observed_ip = ip; observed_port = port % 65536 })

  pub parse_from-next :
      (fuel : ℕ) (bytes : List ℕ) (pos : ℕ) (ip : String) (port : ℕ) (n : Next)
      → step from_utf8_lossy bytes pos ip port ≡ n
      → parse_from from_utf8_lossy (suc fuel) bytes pos ip port
        ≡ proceed (parse_from from_utf8_lossy fuel bytes) n
  unfolding parse_from
  parse_from-next fuel bytes pos ip port n h =
      ap (proceed (parse_from from_utf8_lossy fuel bytes)) h

  parse_from-encode_ending :
      (t : Ending) (fuel : ℕ) (bytes : List ℕ) (pos : ℕ) (ip : String) (port : ℕ)
      → IsEnding t
      → drop pos bytes ≡ encode_ending t
      → pos ≤ length bytes
      → parse_from from_utf8_lossy (suc fuel) bytes pos ip port ≡ outcome_of (ip, port)
  unfolding encode_ending step
  parse_from-encode_ending whole fuel bytes pos ip port i e l =
      let n = length-drop pos bytes l in
      let m = ap length e in
      let o : ltb pos (length bytes) ≡ false = ground (arith, n, m) in
      parse_from-next fuel bytes pos ip port (stop ip port) (rw o refl)
  parse_from-encode_ending (cut n wire_type rest) fuel bytes pos ip port i e l =
      parse_from-next fuel bytes pos ip port (stop ip port)
        (step-cut from_utf8_lossy bytes rest n wire_type pos ip port i e l)

  parse_from-encode_fields :
      (fs : List Field) (t : Ending) (fuel : ℕ) (bytes : List ℕ) (pos : ℕ) (ip : String) (port : ℕ)
      → AreFields fs
      → IsEnding t
      → drop pos bytes ≡ encode_fields fs ++ encode_ending t
      → pos ≤ length bytes
      → length bytes < 2 ^ 63
      → length fs < fuel
      → parse_from from_utf8_lossy fuel bytes pos ip port
        ≡ outcome_of (read_fields from_utf8_lossy fs ip port)
  unfolding encode_fields read_fields
  parse_from-encode_fields fs t zero bytes pos ip port w i e l b f = absurd (omega arith)
  parse_from-encode_fields [] t (suc fuel) bytes pos ip port w i e l b f =
      parse_from-encode_ending t fuel bytes pos ip port i e l
  parse_from-encode_fields (g ∷ fs) t (suc fuel) bytes pos ip port w i e l b f =
      let rest = encode_fields fs ++ encode_ending t in
      let e' : drop pos bytes ≡ encode_field g ++ rest =
        e ∙ append_assoc (encode_field g) (encode_fields fs) (encode_ending t) in
      let s = step-field from_utf8_lossy bytes rest g pos ip port w.0 e' l b in
      let n = length-past bytes (encode_field g) rest pos l e' in
      let (ip', port') = read_field from_utf8_lossy g ip port in
      let r =
        parse_from-encode_fields fs t fuel bytes (pos + length (encode_field g)) ip' port' w.1 i
          (past bytes (encode_field g) rest pos e') (omega (arith, n)) b (omega arith) in
      parse_from-next fuel bytes pos ip port _ s ∙ r

  -- An answer is fields of the wire types 0, 1, 2 and 5, in any order and however often, and then
  -- ends or goes on with a key of the wire type 3, 4, 6 or 7 and any bytes after it. Field numbers
  -- are below 2^29, varints below 2^64, the fixed sizes 8 and 4 bytes, the whole is below 2^63
  -- bytes. It is read in one round more than it has such fields, without a panic: the address is
  -- the last text under the number 2, the port the last varint under 3, modulo 2^16, every other
  -- of these fields is skipped, and what comes from the key of another wire type on is not read.
  pub parse_path_probe_response-encode_fields :
      (fs : List Field) (t : Ending) (fuel : ℕ)
      → AreFields fs
      → IsEnding t
      → length (encode_fields fs ++ encode_ending t) < 2 ^ 63
      → length fs < fuel
      → parse_path_probe_response from_utf8_lossy fuel (encode_fields fs ++ encode_ending t)
        ≡ outcome_of (read_fields from_utf8_lossy fs "" 0)
  parse_path_probe_response-encode_fields fs t fuel w i b f =
      parse_from-encode_fields fs t fuel (encode_fields fs ++ encode_ending t) 0 "" 0 w i refl
        (omega arith) b f

  pub parse_path_probe_response-whole :
      (fs : List Field) (fuel : ℕ)
      → AreFields fs
      → length (encode_fields fs) < 2 ^ 63
      → length fs < fuel
      → parse_path_probe_response from_utf8_lossy fuel (encode_fields fs)
        ≡ outcome_of (read_fields from_utf8_lossy fs "" 0)
  unfolding encode_ending
  parse_path_probe_response-whole fs fuel w b f =
      parse_from-encode_fields fs whole fuel (encode_fields fs) 0 "" 0 w tt
        (sym (append-nil (encode_fields fs))) (omega arith) b f
