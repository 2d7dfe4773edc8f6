-- ===== src/Signaling/Framing.antt =====
-- The frames on the WebSocket, crates/voip-signaling/src/state.rs: two bytes of type, big-endian,
-- and the payload.
use three_pillars_voip.Base.{
  ℕ, ◌<◌, ◌≡◌, ◌↔◌, List, [], ◌∷◌, ◌++◌, Option, none, some, length, ltb, if◌then◌else◌,
  length-append, arith,
}
use three_pillars_voip.Base.Bytes.{
  IsBytes, take, drop, take-append, drop-append, to_be_bytes, from_be_bytes, from_be_onto,
  length-to_be_bytes, from_be_bytes-to_be_bytes,
}

pub record FramedMessage : Type 0 where
  pub type_id : ℕ
  pub payload : List ℕ

unfoldable pub encode_message : ℕ → List ℕ → List ℕ
encode_message type_id payload = to_be_bytes 2 type_id ++ payload

-- `none` is the error for a message that is too short.
unfoldable pub decode_message : List ℕ → Option (ℕ × List ℕ)
decode_message bytes =
    if ltb (length bytes) 2 then none else some (from_be_bytes (take 2 bytes), drop 2 bytes)

unfoldable pub to_bytes : FramedMessage → List ℕ
unfolding encode_message
to_bytes m = encode_message m.type_id m.payload

unfoldable pub from_bytes : List ℕ → Option FramedMessage
from_bytes bytes = elim (decode_message bytes) [
  | none ↦ none
  | some (type_id, payload) ↦ some (record { type_id = type_id; payload = payload })
]

-- A frame whose type is a `u16` comes back from its bytes, whatever the payload.
pub from_bytes-to_bytes : (m : FramedMessage) → m.type_id < 65536 → from_bytes (to_bytes m) ≡ some m
unfolding from_bytes to_bytes decode_message
from_bytes-to_bytes m h =
    let n = length-to_be_bytes 2 m.type_id in
    let bs : List ℕ = to_be_bytes 2 m.type_id in
    ground (
      arith,
      length-append bs m.payload,
      take-append 2 bs m.payload n,
      drop-append 2 bs m.payload n,
      from_be_bytes-to_be_bytes 2 m.type_id (omega arith),
    )

-- Bytes are read as a frame exactly when they are at least two.
pub from_bytes-none_iff : (bytes : List ℕ) → (from_bytes bytes ≡ none) ↔ (length bytes < 2)
unfolding from_bytes decode_message
from_bytes-none_iff bytes = (λ h. ground arith, λ h. ground arith)

-- A frame that was read has the very bytes that it was read from.
pub to_bytes-from_bytes :
    (bytes : List ℕ) (m : FramedMessage)
    → IsBytes bytes
    → from_bytes bytes ≡ some m
    → to_bytes m ≡ bytes
unfolding to_bytes from_bytes decode_message encode_message to_be_bytes from_be_onto
to_bytes-from_bytes [] m v h = cc
to_bytes-from_bytes (a ∷ []) m v h = cc
to_bytes-from_bytes (a ∷ b ∷ rest) m v h = ground arith
