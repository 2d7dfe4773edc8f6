-- ===== src/Client/Masque/Capsule.antt =====
-- The datagram capsules of the HTTP/2 path, crates/voip-client/src/masque.rs: what is written has
-- lengths in groups of seven bits, the lowest first; what is read has lengths as in QUIC.
pub mod Short
pub mod Long
use three_pillars_voip.Base.{
  ℕ, zero, suc, ◌+◌, ◌-◌, ◌/◌, ◌%◌, ◌^◌, ◌≡◌, refl, List, [], ◌∷◌, ◌++◌, length, ltb, not, ◌==◌,
  if◌then◌else◌, arith,
}
use three_pillars_voip.Base.Bytes.{take, drop, from_be_bytes}

-- Seven bits a round; a `u64` takes at most ten rounds.
unfoldable pub encode_groups : ℕ → ℕ → List ℕ
encode_groups zero value = []
encode_groups (suc rounds) value =
    let rest = encode_groups rounds (value / 128) in
    if value / 128 == 0 then value % 128 ∷ [] else (128 + value % 128) ∷ rest

unfoldable pub encode_varint : ℕ → List ℕ
encode_varint value = encode_groups 10 value

unfoldable pub count_groups : ℕ → ℕ → ℕ
count_groups zero v = 1
count_groups (suc rounds) v =
    let n = count_groups rounds (v / 128) in if ltb 127 v then n + 1 else 1

unfoldable pub varint_len : ℕ → ℕ
varint_len value = count_groups 9 value

-- The stream is number 0, the type of the capsule 0.
pub encode_datagram_capsule : List ℕ → List ℕ
encode_datagram_capsule quic_packet =
    encode_varint 0
    ++ (encode_varint (varint_len 0 + length quic_packet) ++ (encode_varint 0 ++ quic_packet))

pub encode_h2_datagram_capsule : List ℕ → List ℕ
encode_h2_datagram_capsule bytes =
    encode_varint 0 ++ (encode_varint (length bytes + varint_len 0) ++ (encode_varint 0 ++ bytes))

-- The first k bytes without the prefix, or nothing consumed if there are fewer.
abbrev pub masked : ℕ → ℕ → List ℕ → ℕ × ℕ
masked k modulus bytes =
    if ltb (length bytes) k then (0, 0) else (from_be_bytes (take k bytes) % modulus, k)

-- The value and the number of bytes consumed.
unfoldable pub decode_h2_varint : List ℕ → ℕ × ℕ
decode_h2_varint [] = (0, 0)
decode_h2_varint (first ∷ rest) =
    let prefix = first / 64 in
    if prefix == 0
    then (first % 64, 1)
    else if prefix == 1
    then masked 2 (2 ^ 14) (first ∷ rest)
    else if prefix == 2
    then masked 4 (2 ^ 30) (first ∷ rest)
    else masked 8 (2 ^ 62) (first ∷ rest)

-- `panics` is the slice whose end lies before its start.
pub data Decoded : Type 0 where
  packet : List ℕ → Decoded
  wrong_type : ℕ → Decoded
  truncated : (expected have : ℕ) → Decoded
  panics : Decoded

-- What stands behind `pos`, up to `end`.
abbrev pub slice : ℕ → ℕ → List ℕ → Decoded
slice pos end bytes =
    if ltb (length bytes) end
    then truncated (end - pos) (length bytes - pos)
    else if ltb end pos
    then panics
    else packet (take (end - pos) (drop pos bytes))

unfoldable pub decode_datagram_capsule : List ℕ → Decoded
decode_datagram_capsule bytes =
    let (capsule_type, ct_len) = decode_h2_varint bytes in
    let (capsule_len, cl_len) = decode_h2_varint (drop ct_len bytes) in
    let start = ct_len + cl_len in
    let (quarter_stream_id, qs_len) = decode_h2_varint (drop start bytes) in
    let pos = start + qs_len in
    if not (capsule_type == 0)
    then wrong_type capsule_type
    else slice pos (pos + capsule_len - qs_len) bytes

-- The two encoders write the same capsule.
pub encode_h2_datagram_capsule_lem :
    (bytes : List ℕ) → encode_h2_datagram_capsule bytes ≡ encode_datagram_capsule bytes
unfolding encode_h2_datagram_capsule encode_datagram_capsule
encode_h2_datagram_capsule_lem bytes =
    let e : length bytes + varint_len 0 ≡ varint_len 0 + length bytes = omega arith in rw e
