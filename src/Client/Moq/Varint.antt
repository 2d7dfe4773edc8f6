-- ===== src/Client/Moq/Varint.antt =====
-- The variable-length integers of crates/voip-client/src/moq.rs, as in QUIC: the top two bits of the
-- first byte say how many bytes there are.
pub mod RoundTrip
use three_pillars_voip.Base.{
  ℕ, ◌+◌, ◌*◌, ◌/◌, ◌%◌, ◌^◌, List, [], ◌∷◌, length, ltb, ◌==◌, if◌then◌else◌,
}
use three_pillars_voip.Base.Bytes.{take, to_be_bytes, from_be_bytes, from_be_onto}

-- `0x4000 | value` and the like: below the tag's bits the disjunction is a sum. The last branch takes
-- any `u64`, whose top two bits the tag covers.
unfoldable pub encode_varint : ℕ → List ℕ
encode_varint value =
    if ltb value 0x40
    then value ∷ []
    else if ltb value 0x4000
    then to_be_bytes 2 (0x4000 + value)
    else if ltb value 0x40000000
    then to_be_bytes 4 (0x80000000 + value)
    else to_be_bytes 8 (0xC000000000000000 + value % 2 ^ 62)

-- The first k bytes without the tag, or nothing consumed if there are fewer.
unfoldable pub tagged : ℕ → ℕ → List ℕ → ℕ × ℕ
tagged k modulus bytes =
    if ltb (length bytes) k then (0, 0) else (from_be_bytes (take k bytes) % modulus, k)

-- The value and the number of bytes consumed.
unfoldable pub decode_varint : List ℕ → ℕ × ℕ
unfolding tagged
decode_varint [] = (0, 0)
decode_varint (first ∷ rest) =
    let prefix = first / 64 in
    if prefix == 0
    then (first, 1)
    else if prefix == 1
    then tagged 2 (2 ^ 14) (first ∷ rest)
    else if prefix == 2
    then tagged 4 (2 ^ 30) (first ∷ rest)
    else tagged 8 (2 ^ 62) (first ∷ rest)
