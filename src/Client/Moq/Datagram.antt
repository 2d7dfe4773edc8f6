-- ===== src/Client/Moq/Datagram.antt =====
-- Media datagrams, `MoqDatagram` of crates/voip-client/src/moq.rs.
use three_pillars_voip.Base.{
  ℕ, ◌%◌, ◌^◌, ◌<◌, ◌≡◌, refl, ap, ◌∙◌, List, [], ◌∷◌, ◌++◌, length, ltb, not, ◌==◌, if◌then◌else◌,
  arith, length-append,
}
use three_pillars_voip.Base.Bytes.{
  take, drop, take-append, drop-append, to_be_bytes, from_be_bytes, length-to_be_bytes,
  from_be_bytes-to_be_bytes,
}
use three_pillars_voip.Client.Moq.Varint.{encode_varint, decode_varint}
use three_pillars_voip.Client.Moq.Varint.RoundTrip.{
  decode_varint-encode_varint, decode_varint_short,
}

abbrev pub datagram_type_media : ℕ
datagram_type_media = 1

pub record MoqDatagram : Type 0 where
  pub datagram_type : ℕ
  pub track_alias : ℕ
  pub sequence : ℕ
  pub timestamp : ℕ
  pub payload : List ℕ

pub data MoqError : Type 0 where
  datagram_too_short : (got need : ℕ) → MoqError
  invalid_datagram_type : ℕ → MoqError

pub data Decoded : Type 0 where
  ok : MoqDatagram → Decoded
  err : MoqError → Decoded

unfoldable pub new : ℕ → ℕ → ℕ → List ℕ → MoqDatagram
new track_alias sequence timestamp payload = record {
  datagram_type = datagram_type_media;
  track_alias = track_alias;
  sequence = sequence;
  timestamp = timestamp;
  payload = payload;
}

pub encode : MoqDatagram → List ℕ
encode d =
    d.datagram_type
    ∷ (to_be_bytes 4 d.track_alias
        ++ (encode_varint d.sequence ++ (encode_varint d.timestamp ++ d.payload)))

-- What stands behind the type and the alias. `advance` panics past the end, where `drop` leaves
-- nothing.
decode_body : ℕ → ℕ → List ℕ → MoqDatagram
decode_body datagram_type track_alias cursor =
    let (sequence, seq_len) = decode_varint cursor in
    let cursor' = drop seq_len cursor in
    let (timestamp, ts_len) = decode_varint cursor' in
    record {
      datagram_type = datagram_type;
      track_alias = track_alias;
      sequence = sequence;
      timestamp = timestamp;
      payload = drop ts_len cursor';
    }

decode_typed : List ℕ → Decoded
unfolding decode_body
decode_typed [] = err (datagram_too_short 0 5)
decode_typed (datagram_type ∷ cursor) =
    if not (datagram_type == datagram_type_media)
    then err (invalid_datagram_type datagram_type)
    else ok (decode_body datagram_type (from_be_bytes (take 4 cursor)) (drop 4 cursor))

pub decode : List ℕ → Decoded
unfolding decode_typed
decode bytes =
    if ltb (length bytes) 5 then err (datagram_too_short (length bytes) 5) else decode_typed bytes

decode_media :
    (a : ℕ) (rest : List ℕ)
    → a < 2 ^ 32
    → decode (datagram_type_media ∷ (to_be_bytes 4 a ++ rest))
      ≡ ok (decode_body datagram_type_media a rest)
unfolding decode decode_typed
decode_media a rest h =
    let bs : List ℕ = to_be_bytes 4 a in
    let n = length-to_be_bytes 4 a in
    ground (
      arith,
      length-append bs rest,
      take-append 4 bs rest n,
      drop-append 4 bs rest n,
      from_be_bytes-to_be_bytes 4 a (omega arith),
    )

decode_body-encode :
    (t a sequence timestamp : ℕ) (payload : List ℕ)
    → sequence < 2 ^ 64
    → timestamp < 2 ^ 64
    → decode_body t a (encode_varint sequence ++ (encode_varint timestamp ++ payload)) ≡ record {
      datagram_type = t;
      track_alias = a;
      sequence = sequence % 2 ^ 62;
      timestamp = timestamp % 2 ^ 62;
      payload = payload;
    }
unfolding decode_body
decode_body-encode t a sequence timestamp payload hs ht =
    let rest : List ℕ = encode_varint timestamp ++ payload in
    rw (decode_varint-encode_varint sequence rest hs) (
      rw (drop-append (length (encode_varint sequence)) (encode_varint sequence) rest refl) (
        rw (decode_varint-encode_varint timestamp payload ht) (
          rw (
            drop-append (length (encode_varint timestamp)) (encode_varint timestamp) payload
              refl))))

-- A media datagram that is encoded and decoded comes back, except that a sequence number or a
-- timestamp loses its top two bits of 64: both come back whole below 2^62. The alias is a `u32` and
-- the two numbers are `u64`s.
pub decode-encode :
    (a sequence timestamp : ℕ) (payload : List ℕ)
    → a < 2 ^ 32
    → sequence < 2 ^ 64
    → timestamp < 2 ^ 64
    → decode (encode (new a sequence timestamp payload))
      ≡ ok (new a (sequence % 2 ^ 62) (timestamp % 2 ^ 62) payload)
unfolding decode encode new
decode-encode a sequence timestamp payload ha hs ht =
    decode_media a _ ha
    ∙ ap ok (decode_body-encode datagram_type_media a sequence timestamp payload hs ht)

-- A datagram cut off before the end of its sequence number is not refused: it decodes with sequence
-- number 0 and timestamp 0, and the bytes left over are the payload.
pub decode_truncated :
    (a : ℕ) (rest : List ℕ)
    → a < 2 ^ 32
    → (decode_varint rest).1 ≡ 0
    → decode (datagram_type_media ∷ (to_be_bytes 4 a ++ rest)) ≡ ok (new a 0 0 rest)
unfolding new decode_body
decode_truncated a rest ha e =
    decode_media a rest ha ∙ ap ok (rw (e) (ground (arith, decode_varint_short rest e)))
