-- ===== src/Client/NatProbe/Path/Reflected.antt =====
-- A client behind a NAT and the server that reflects its address: crates/voip-client/src/nat_probe.rs
-- with crates/voip-signaling/src/quic_probe.rs.
use three_pillars_voip.Base.{
  ℕ, ◌%◌, ◌^◌, ◌<◌, ◌≤◌, ◌≡◌, refl, ap, ◌∙◌, true, false, Bool-cases, inl, inr, List, [], ◌∷◌, ◌++◌,
  String, length, length-append, ltb, ◌==◌, if◌then◌else◌, u32_mod, u64_mod, arith,
}
use three_pillars_voip.Base.Bytes.{
  take, drop, take-append, drop-append, to_be_bytes, from_be_bytes, length-to_be_bytes,
  from_be_bytes-to_be_bytes,
}
use three_pillars_voip.Client.NatProbe.Path.{done, found, probe_single_path}
use three_pillars_voip.Client.NatProbe.Response.{parse_path_probe_response}
use three_pillars_voip.Client.NatProbe.Response.Answers.{
  outcome_of, parse_path_probe_response-whole,
}
use three_pillars_voip.Client.NatProbe.Response.Fields.{
  Field, delimited, varint_field, AreFields, encode_fields, read_field, read_fields,
}
use three_pillars_voip.Signaling.Framing.{to_bytes, encode_message}
use three_pillars_voip.Signaling.QuicProbe.{PathProbeResponse, handle_path_migration}

module _ (as_bytes : String → List ℕ) where
  -- The fields of a message of proto3: those at their default are left out.
  abbrev text_field : ℕ → String → List Field
  text_field n s = if length (as_bytes s) == 0 then [] else delimited n (as_bytes s) ∷ []

  abbrev number_field : ℕ → ℕ → List Field
  number_field n v = if v == 0 then [] else varint_field n v ∷ []

  abbrev pub fields_of : PathProbeResponse → List Field
  fields_of r =
      text_field 1 r.server_ip
      ++ (text_field 2 r.observed_ip
          ++ (number_field 3 r.observed_port ++ number_field 4 r.timestamp_ms))

AreFields-append : (fs gs : List Field) → AreFields fs → AreFields gs → AreFields (fs ++ gs)
AreFields-append [] gs h k = k
AreFields-append (f ∷ fs) gs h k = (h.0, AreFields-append fs gs h.1 k)

text_field-AreFields :
    (as_bytes : String → List ℕ) (n : ℕ) (s : String)
    → n < 5
    → AreFields (text_field as_bytes n s) × (length (text_field as_bytes n s) ≤ 1)
text_field-AreFields as_bytes n s l = elim (Bool-cases (length (as_bytes s) == 0)) [
  | inl c ↦ rw c (tt, omega arith)
  | inr c ↦ rw c ((omega arith, tt), omega arith)
]

number_field-AreFields :
    (as_bytes : String → List ℕ) (n v : ℕ)
    → n < 5
    → v < u64_mod
    → AreFields (number_field as_bytes n v) × (length (number_field as_bytes n v) ≤ 1)
number_field-AreFields as_bytes n v l h = elim (Bool-cases (v == 0)) [
  | inl c ↦ rw c (tt, omega arith)
  | inr c ↦ rw c (((omega arith, h), tt), omega arith)
]

fields_of-AreFields :
    (as_bytes : String → List ℕ) (r : PathProbeResponse)
    → r.observed_port < 65536
    → r.timestamp_ms < u64_mod
    → AreFields (fields_of as_bytes r) × (length (fields_of as_bytes r) < 5)
fields_of-AreFields as_bytes r j k =
    let s = text_field as_bytes 1 r.server_ip in
    let o = text_field as_bytes 2 r.observed_ip in
    let p = number_field as_bytes 3 r.observed_port in
    let t = number_field as_bytes 4 r.timestamp_ms in
    let (sf, sn) = text_field-AreFields as_bytes 1 r.server_ip (omega arith) in
    let (of, on) = text_field-AreFields as_bytes 2 r.observed_ip (omega arith) in
    let (pf, pn) = number_field-AreFields as_bytes 3 r.observed_port (omega arith) (omega arith) in
    let (tf, tn) = number_field-AreFields as_bytes 4 r.timestamp_ms (omega arith) k in
    (
      AreFields-append s (o ++ (p ++ t)) sf
          (AreFields-append o (p ++ t) of (AreFields-append p t pf tf)),
      omega (
        arith,
        length-append s (o ++ (p ++ t)),
        length-append o (p ++ t),
        length-append p t,
        sn,
        on,
        pn,
        tn,
      ),
    )

read_numbers :
    (from_utf8_lossy : List ℕ → String) (as_bytes : String → List ℕ) (ip : String) (port ms : ℕ)
    → port < 65536
    → read_fields from_utf8_lossy (number_field as_bytes 3 port ++ number_field as_bytes 4 ms) ip 0
      ≡ (ip, port)
unfolding read_fields read_field
read_numbers from_utf8_lossy as_bytes ip port ms h =
    let whole : port % u32_mod ≡ port = omega arith in
    elim (Bool-cases (port == 0)) [
      | inl c ↦ elim (Bool-cases (ms == 0)) [
        | inl d ↦ ground (arith, c, d)
        | inr d ↦ ground (arith, c, d)
      ]
      | inr c ↦ elim (Bool-cases (ms == 0)) [
        | inl d ↦ rw c (rw d (rw whole refl))
        | inr d ↦ rw c (rw d (rw whole refl))
      ]
    ]

read_fields_of :
    (from_utf8_lossy : List ℕ → String) (as_bytes : String → List ℕ) (r : PathProbeResponse)
    → 0 < length (as_bytes r.observed_ip)
    → r.observed_port < 65536
    → read_fields from_utf8_lossy (fields_of as_bytes r) "" 0
      ≡ (from_utf8_lossy (as_bytes r.observed_ip), r.observed_port)
unfolding read_fields read_field
read_fields_of from_utf8_lossy as_bytes r h p =
    let some : length (as_bytes r.observed_ip) == 0 ≡ false = ground (arith, h) in
    let n =
      read_numbers from_utf8_lossy as_bytes (from_utf8_lossy (as_bytes r.observed_ip))
        r.observed_port r.timestamp_ms p in
    elim (Bool-cases (length (as_bytes r.server_ip) == 0)) [
      | inl a ↦ rw a (rw some n)
      | inr a ↦ rw a (rw some n)
    ]

to_bytes-parts :
    (t : ℕ) (payload : List ℕ)
    → t < 65536
    → let bytes = to_be_bytes 2 t ++ payload in
      (from_be_bytes (take 2 bytes) ≡ t)
      × ((drop 2 bytes ≡ payload) × (ltb (length bytes) 2 ≡ false))
to_bytes-parts t payload h =
    let n = length-to_be_bytes 2 t in
    let bs = to_be_bytes 2 t in
    (
      ap from_be_bytes (take-append 2 bs payload n) ∙ from_be_bytes-to_be_bytes 2 t (omega arith),
      (drop-append 2 bs payload n, ground (arith, n, length-append bs payload)),
    )

module _ (from_utf8_lossy : List ℕ → String) (as_bytes : String → List ℕ)
    (encode_to_vec : PathProbeResponse → List ℕ) where
  -- A probe whose answer arrives whole finds the address and the port, a `u16`, that the server
  -- saw, in one round of the parser more than there are fields: where prost encodes by the format,
  -- the text of the address is not empty and survives its bytes, both texts are shorter than 2^32
  -- bytes, the time fits a `u64` and the answer fits the buffer.
  pub probe_single_path-handle_path_migration :
      ((r : PathProbeResponse) → encode_to_vec r ≡ encode_fields (fields_of as_bytes r))
      → (server_ip observed_ip : String) (port seen_ms now_ms rtt_ms : ℕ)
      → from_utf8_lossy (as_bytes observed_ip) ≡ observed_ip
      → 0 < length (as_bytes observed_ip)
      → length (as_bytes observed_ip) < 2 ^ 32
      → length (as_bytes server_ip) < 2 ^ 32
      → port < 65536
      → seen_ms < u64_mod
      → let answer = handle_path_migration encode_to_vec seen_ms server_ip (observed_ip, port) in
        length answer ≤ 1024
        → probe_single_path from_utf8_lossy 5 server_ip now_ms rtt_ms
            (record { open_bi = done tt; write_all = true; read = done answer })
          ≡ found (record {
            server_ip = server_ip;
            local_port = 0;
            external_ip = observed_ip;
            external_port = port;
            timestamp_ms = now_ms;
            rtt_ms = rtt_ms % u32_mod;
          })
  unfolding probe_single_path handle_path_migration to_bytes encode_message
  probe_single_path-handle_path_migration prost server_ip observed_ip port seen_ms now_ms rtt_ms
        utf8 some short short' p m fits =
      let r : PathProbeResponse = record {
        server_ip = server_ip;
        observed_ip = observed_ip;
        observed_port = port;
        timestamp_ms = seen_ms;
      } in
      let (head, (tail, long)) = to_bytes-parts 0x0200 (encode_to_vec r) (omega arith) in
      let (fields, few) = fields_of-AreFields as_bytes r p m in
      let size = length-append (to_be_bytes 2 0x0200) (encode_to_vec r) in
      let parsed : parse_path_probe_response from_utf8_lossy 5 (encode_to_vec r)
          ≡ outcome_of from_utf8_lossy (from_utf8_lossy (as_bytes observed_ip), port) =
        ap (parse_path_probe_response from_utf8_lossy 5) (prost r)
        ∙ (parse_path_probe_response-whole from_utf8_lossy (fields_of as_bytes r) 5 fields
              (omega (arith, fits, size, ap length (prost r))) few
            ∙ ap (outcome_of from_utf8_lossy) (read_fields_of from_utf8_lossy as_bytes r some p)) in
      let whole : port % 65536 ≡ port = omega arith in
      rw long (rw head (rw tail (rw parsed (rw utf8 (rw whole refl)))))
