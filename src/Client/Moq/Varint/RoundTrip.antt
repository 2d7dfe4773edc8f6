-- ===== src/Client/Moq/Varint/RoundTrip.antt =====
-- Reading back what `encode_varint` of crates/voip-client/src/moq.rs writes.
use three_pillars_voip.Base.{
  ◌∙◌, ℕ, ◌+◌, ◌%◌, ◌^◌, ◌≤◌, ◌<◌, ◌≡◌, refl, List, [], ◌∷◌, ◌++◌, length, arith, length-append,
}
use three_pillars_voip.Base.Bytes.{
  take-append, to_be_bytes, length-to_be_bytes, from_be_bytes-to_be_bytes,
}
use three_pillars_voip.Client.Moq.Varint.{encode_varint, tagged, decode_varint}

-- A value written with its tag in k bytes.
tagged-read :
    (k modulus n v : ℕ) (rest : List ℕ)
    → n < 256 ^ k
    → n % modulus ≡ v
    → tagged k modulus (to_be_bytes k n ++ rest) ≡ (v, k)
unfolding tagged
tagged-read k modulus n v rest h e =
    let l = length-to_be_bytes k n in
    ground (
      arith,
      length-append (to_be_bytes k n) rest,
      take-append k (to_be_bytes k n) rest l,
      from_be_bytes-to_be_bytes k n h,
    )

read_one : (n : ℕ) (rest : List ℕ) → n < 0x40 → decode_varint (n ∷ rest) ≡ (n, 1)
unfolding decode_varint
read_one n rest h = ground arith

read_two :
    (n : ℕ) (rest : List ℕ)
    → 0x4000 ≤ n
    → n < 0x8000
    → decode_varint (to_be_bytes 2 n ++ rest) ≡ tagged 2 (2 ^ 14) (to_be_bytes 2 n ++ rest)
unfolding decode_varint to_be_bytes
read_two n rest h l = ground arith

read_four :
    (n : ℕ) (rest : List ℕ)
    → 0x80000000 ≤ n
    → n < 0xC0000000
    → decode_varint (to_be_bytes 4 n ++ rest) ≡ tagged 4 (2 ^ 30) (to_be_bytes 4 n ++ rest)
unfolding decode_varint to_be_bytes
read_four n rest h l = ground arith

read_eight :
    (n : ℕ) (rest : List ℕ)
    → 0xC000000000000000 ≤ n
    → n < 0x10000000000000000
    → decode_varint (to_be_bytes 8 n ++ rest) ≡ tagged 8 (2 ^ 62) (to_be_bytes 8 n ++ rest)
unfolding decode_varint to_be_bytes
read_eight n rest h l = ground arith

two :
    (v : ℕ) (rest : List ℕ)
    → v < 0x4000
    → decode_varint (to_be_bytes 2 (0x4000 + v) ++ rest) ≡ (v, 2)
two v rest h =
    read_two (0x4000 + v) rest (omega arith) (omega arith)
    ∙ tagged-read 2 (2 ^ 14) (0x4000 + v) v rest (omega arith) (omega arith)

four :
    (v : ℕ) (rest : List ℕ)
    → v < 0x40000000
    → decode_varint (to_be_bytes 4 (0x80000000 + v) ++ rest) ≡ (v, 4)
four v rest h =
    read_four (0x80000000 + v) rest (omega arith) (omega arith)
    ∙ tagged-read 4 (2 ^ 30) (0x80000000 + v) v rest (omega arith) (omega arith)

eight :
    (v : ℕ) (rest : List ℕ)
    → v < 2 ^ 62
    → decode_varint (to_be_bytes 8 (0xC000000000000000 + v) ++ rest) ≡ (v, 8)
eight v rest h =
    read_eight (0xC000000000000000 + v) rest (omega arith) (omega arith)
    ∙ tagged-read 8 (2 ^ 62) (0xC000000000000000 + v) v rest (omega arith) (omega arith)

-- Whatever is written of a `u64` is consumed whole, whatever follows, and what is read is the value
-- without its top two bits: the value itself below 2^62.
pub decode_varint-encode_varint :
    (value : ℕ) (rest : List ℕ)
    → value < 2 ^ 64
    → decode_varint (encode_varint value ++ rest) ≡ (value % 2 ^ 62, length (encode_varint value))
unfolding encode_varint
decode_varint-encode_varint value rest h = ground (
  arith,
  read_one value rest,
  two value rest,
  four value rest,
  eight (value % 2 ^ 62) rest,
  length-to_be_bytes 2 (0x4000 + value),
  length-to_be_bytes 4 (0x80000000 + value),
  length-to_be_bytes 8 (0xC000000000000000 + value % 2 ^ 62),
)

tagged-within : (k modulus : ℕ) (bytes : List ℕ) → (tagged k modulus bytes).1 ≤ length bytes
unfolding tagged
tagged-within k modulus bytes = ground arith

-- No more bytes are consumed than there are, whatever they are.
pub decode_varint-within : (bytes : List ℕ) → (decode_varint bytes).1 ≤ length bytes
unfolding decode_varint
decode_varint-within [] = omega arith
decode_varint-within (b ∷ bs) = ground (
  arith,
  tagged-within 2 (2 ^ 14) (b ∷ bs),
  tagged-within 4 (2 ^ 30) (b ∷ bs),
  tagged-within 8 (2 ^ 62) (b ∷ bs),
)

tagged_short :
    (k modulus : ℕ) (bytes : List ℕ)
    → 0 < k
    → (tagged k modulus bytes).1 ≡ 0
    → (tagged k modulus bytes).0 ≡ 0
unfolding tagged
tagged_short k modulus bytes h e = ground arith

pub decode_varint_short :
    (bytes : List ℕ) → (decode_varint bytes).1 ≡ 0 → (decode_varint bytes).0 ≡ 0
unfolding decode_varint
decode_varint_short [] e = refl
decode_varint_short (b ∷ bs) e = ground (
  arith,
  tagged_short 2 (2 ^ 14) (b ∷ bs),
  tagged_short 4 (2 ^ 30) (b ∷ bs),
  tagged_short 8 (2 ^ 62) (b ∷ bs),
)
