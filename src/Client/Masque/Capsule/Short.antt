-- ===== src/Client/Masque/Capsule/Short.antt =====
-- Capsules of packets up to 62 bytes (crates/voip-client/src/masque.rs).
use three_pillars_voip.Base.{ℕ, ◌≤◌, ◌<◌, ◌≡◌, refl, List, [], ◌∷◌, length, arith, suc}
use three_pillars_voip.Base.Bytes.{take}
use three_pillars_voip.Client.Masque.Capsule.{
  encode_groups, encode_varint, count_groups, varint_len, encode_datagram_capsule, decode_h2_varint,
  packet, decode_datagram_capsule,
}

pub encode_varint_small : (n : ℕ) → n < 128 → encode_varint n ≡ n ∷ []
unfolding encode_varint encode_groups
encode_varint_small n h = ground arith

pub decode_small : (n : ℕ) (rest : List ℕ) → n < 64 → decode_h2_varint (n ∷ rest) ≡ (n, 1)
unfolding decode_h2_varint
decode_small n rest h = ground arith

take_all : (p : List ℕ) → take (length p) p ≡ p
take_all [] = refl
take_all (x ∷ p) = rw (take_all p)

-- What a packet of fewer than 127 bytes is written as.
pub encode_datagram_capsule_small :
    (p : List ℕ) → length p < 127 → encode_datagram_capsule p ≡ 0 ∷ suc (length p) ∷ 0 ∷ p
unfolding encode_datagram_capsule varint_len count_groups
encode_datagram_capsule_small p h =
    ground (arith, encode_varint_small 0 (omega arith), encode_varint_small (suc (length p)))

-- A packet of at most 62 bytes comes back from its capsule.
pub decode_datagram_capsule-encode_datagram_capsule :
    (p : List ℕ) → length p ≤ 62 → decode_datagram_capsule (encode_datagram_capsule p) ≡ packet p
unfolding decode_datagram_capsule
decode_datagram_capsule-encode_datagram_capsule p h =
    rw (encode_datagram_capsule_small p (omega arith)) (
      ground (
        arith,
        decode_small 0 (suc (length p) ∷ 0 ∷ p),
        decode_small (suc (length p)) (0 ∷ p),
        decode_small 0 p,
        take_all p,
      ))
