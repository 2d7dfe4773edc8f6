-- ===== src/Core/Crypto/RoundTrip.antt =====
-- Keys in hexadecimal that are written and read (crates/voip-core/src/crypto.rs).
use three_pillars_voip.Base.{
  ℕ, ◌+◌, ◌*◌, ◌/◌, ◌%◌, ◌<◌, ◌≡◌, refl, Option, some, List, [], ◌∷◌, length, arith,
}
use three_pillars_voip.Base.Bytes.{IsBytes}
use three_pillars_voip.Core.Crypto.{
  hex_char, hex_encode, char_from_hex, decode_pairs, hex_decode, ok, peer_id_from_public_key,
  parse_peer_id,
}

char_from_hex-hex_char : (v : ℕ) → v < 16 → char_from_hex (hex_char v) ≡ ok v
unfolding char_from_hex
char_from_hex-hex_char v h = ground arith

pub length-hex_encode : (bytes : List ℕ) → length (hex_encode bytes) ≡ 2 * length bytes
unfolding hex_encode
length-hex_encode [] = refl
length-hex_encode (b ∷ bytes) = omega (arith, length-hex_encode bytes)

decode_pairs-hex_encode :
    (bytes : List ℕ) → IsBytes bytes → decode_pairs (hex_encode bytes) ≡ ok bytes
unfolding decode_pairs hex_encode
decode_pairs-hex_encode [] h = refl
decode_pairs-hex_encode (b ∷ bytes) h =
    let e : b / 16 * 16 + b % 16 ≡ b = omega arith in
    rw (
      char_from_hex-hex_char (b / 16) (omega arith),
      char_from_hex-hex_char (b % 16) (omega arith),
      decode_pairs-hex_encode bytes h.1,
      e,
    )

-- Any bytes come back from their hexadecimal text.
pub hex_decode-hex_encode :
    (bytes : List ℕ) → IsBytes bytes → hex_decode (hex_encode bytes) ≡ ok bytes
unfolding hex_decode
hex_decode-hex_encode bytes h =
    ground (arith, length-hex_encode bytes, decode_pairs-hex_encode bytes h)

-- A key comes back from its peer id, which has 64 characters, if the key is 32 bytes from which it is
-- read back.
pub parse_peer_id-peer_id_from_public_key :
    {VerifyingKey : Type 0} (as_bytes : VerifyingKey → List ℕ)
    (from_bytes : List ℕ → Option VerifyingKey) (pk : VerifyingKey)
    → IsBytes (as_bytes pk)
    → length (as_bytes pk) ≡ 32
    → from_bytes (as_bytes pk) ≡ some pk
    → (parse_peer_id from_bytes (peer_id_from_public_key as_bytes pk) ≡ ok pk)
      × (length (peer_id_from_public_key as_bytes pk) ≡ 64)
unfolding parse_peer_id peer_id_from_public_key
parse_peer_id-peer_id_from_public_key as_bytes from_bytes pk b l f = (
  rw (hex_decode-hex_encode (as_bytes pk) b) (ground (arith, l, f)),
  omega (arith, length-hex_encode (as_bytes pk)),
)
