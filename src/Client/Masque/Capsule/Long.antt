-- ===== src/Client/Masque/Capsule/Long.antt =====
-- Capsules of longer packets (crates/voip-client/src/masque.rs).
use three_pillars_voip.Base.{
  Bool, true, false, ℕ, suc, ◌+◌, ◌-◌, ◌*◌, ◌/◌, ◌%◌, ◌^◌, ◌≤◌, ◌<◌, ◌≡◌, List, [], ◌∷◌, length,
  arith,
}
use three_pillars_voip.Base.Bytes.{take, IsBytes, from_be_onto}
use three_pillars_voip.Client.Masque.Capsule.{
  encode_groups, encode_varint, count_groups, varint_len, encode_datagram_capsule, decode_h2_varint,
  Decoded, truncated, panics, decode_datagram_capsule,
}
use three_pillars_voip.Client.Masque.Capsule.Short.{
  decode_small, encode_varint_small, encode_datagram_capsule_small,
}

encode_varint_two :
    (n : ℕ) → 128 ≤ n → n < 16384 → encode_varint n ≡ (128 + n % 128) ∷ (n / 128) ∷ []
unfolding encode_varint encode_groups
encode_varint_two n h l = ground arith

encode_datagram_capsule_two :
    (p : List ℕ)
    → 127 ≤ length p
    → length p < 16383
    → encode_datagram_capsule p ≡ 0 ∷ (128 + suc (length p) % 128) ∷ (suc (length p) / 128) ∷ 0 ∷ p
unfolding encode_datagram_capsule varint_len count_groups
encode_datagram_capsule_two p h l =
    ground (arith, encode_varint_small 0 (omega arith), encode_varint_two (suc (length p)))

-- At least one byte is consumed where there are eight.
decode_consumes : (p : List ℕ) → 8 ≤ length p → 1 ≤ (decode_h2_varint p).1
unfolding decode_h2_varint
decode_consumes [] h = absurd (omega arith)
decode_consumes (b ∷ p) h = ground arith

decode_zero : (p : List ℕ) → decode_h2_varint (0 ∷ p) ≡ (0, 1)
decode_zero p = decode_small 0 p (omega arith)

decode_tagged_two :
    (m : ℕ) (p : List ℕ) → 64 ≤ m → m < 128 → decode_h2_varint (m ∷ 0 ∷ p) ≡ ((m - 64) * 256, 2)
unfolding decode_h2_varint from_be_onto
decode_tagged_two m p h l = ground arith

-- A packet of 63 bytes makes the reader of its capsule panic.
pub decode_datagram_capsule_panics :
    (p : List ℕ) → length p ≡ 63 → decode_datagram_capsule (encode_datagram_capsule p) ≡ panics
unfolding decode_datagram_capsule
decode_datagram_capsule_panics p h = rw (encode_datagram_capsule_small p (omega arith)) (
    ground (
      arith,
      decode_zero (suc (length p) ∷ 0 ∷ p),
      decode_tagged_two (suc (length p)) p,
      decode_consumes p,
    ))

abbrev pub is_refused : Decoded → Bool
is_refused (truncated expected have) = true
is_refused _ = false

refused_two :
    (p : List ℕ)
    → 64 ≤ length p
    → length p < 127
    → is_refused (decode_datagram_capsule (encode_datagram_capsule p)) ≡ true
unfolding decode_datagram_capsule
refused_two p h l =
    rw (encode_datagram_capsule_small p (omega arith))
      (ground (arith, decode_zero (suc (length p) ∷ 0 ∷ p), decode_tagged_two (suc (length p)) p))

one_byte :
    (acc : ℕ) (p : List ℕ)
    → IsBytes p
    → 1 ≤ length p
    → (acc * 256 ≤ from_be_onto acc (take 1 p)) × (from_be_onto acc (take 1 p) < acc * 256 + 256)
unfolding from_be_onto
one_byte acc [] b h = absurd (omega arith)
one_byte acc (x ∷ p) b h = omega arith

five_bytes :
    (acc : ℕ) (p : List ℕ)
    → IsBytes p
    → 5 ≤ length p
    → (acc * 2 ^ 40 ≤ from_be_onto acc (take 5 p))
      × (from_be_onto acc (take 5 p) < acc * 2 ^ 40 + 2 ^ 40)
unfolding from_be_onto
five_bytes acc (a ∷ b ∷ c ∷ d ∷ e ∷ p) h l =
    (omega arith, omega (arith, h.0, h.1.0, h.1.1.0, h.1.1.1.0, h.1.1.1.1.0))
five_bytes acc (a ∷ b ∷ c ∷ d ∷ []) h l = absurd (omega arith)
five_bytes acc (a ∷ b ∷ c ∷ []) h l = absurd (omega arith)
five_bytes acc (a ∷ b ∷ []) h l = absurd (omega arith)
five_bytes acc (a ∷ []) h l = absurd (omega arith)
five_bytes acc [] h l = absurd (omega arith)

-- The two bytes of a length from 128 on, read as the first of four or of eight bytes.
decode_four :
    (r q : ℕ) (p : List ℕ)
    → r < 64
    → 1 ≤ q
    → q < 128
    → IsBytes p
    → 8 ≤ length p
    → (65536 ≤ (decode_h2_varint ((128 + r) ∷ q ∷ 0 ∷ p)).0)
      × ((decode_h2_varint ((128 + r) ∷ q ∷ 0 ∷ p)).1 ≡ 4)
unfolding decode_h2_varint from_be_onto
decode_four r q p hr hq lq b h =
    ground (arith, one_byte (((128 + r) * 256 + q) * 256) p b (omega arith))

decode_eight :
    (r q : ℕ) (p : List ℕ)
    → 64 ≤ r
    → r < 128
    → 1 ≤ q
    → q < 128
    → IsBytes p
    → 8 ≤ length p
    → (65536 ≤ (decode_h2_varint ((128 + r) ∷ q ∷ 0 ∷ p)).0)
      × ((decode_h2_varint ((128 + r) ∷ q ∷ 0 ∷ p)).1 ≡ 8)
unfolding decode_h2_varint from_be_onto
decode_eight r q p lr hr hq lq b h =
    ground (arith, five_bytes (((128 + r) * 256 + q) * 256) p b (omega arith))

refused_far :
    (p : List ℕ)
    → IsBytes p
    → 127 ≤ length p
    → length p < 16383
    → is_refused (decode_datagram_capsule (encode_datagram_capsule p)) ≡ true
unfolding decode_datagram_capsule
refused_far p b h l =
    let r = suc (length p) % 128 in
    let q = suc (length p) / 128 in
    let lq : 1 ≤ q = omega arith in
    let hq : q < 128 = omega arith in
    let z = decode_zero ((128 + r) ∷ q ∷ 0 ∷ p) in
    rw (encode_datagram_capsule_two p h l)
      (ground (arith, z, decode_four r q p, decode_eight r q p))

-- The reader refuses the capsule of every packet of 64 to 16382 bytes.
pub decode_datagram_capsule_refuses :
    (p : List ℕ)
    → IsBytes p
    → 64 ≤ length p
    → length p < 16383
    → is_refused (decode_datagram_capsule (encode_datagram_capsule p)) ≡ true
decode_datagram_capsule_refuses p b h l = ground (arith, refused_two p h, refused_far p b)
