-- ===== src/Core/Crypto.antt =====
-- The hexadecimal form of keys, crates/voip-core/src/crypto.rs. A text is the list of its bytes; what
-- `VerifyingKey` takes for a key is a parameter, `as_bytes` and `from_bytes`.
pub mod RoundTrip
use three_pillars_voip.Base.{
  ℕ, ◌+◌, ◌-◌, ◌*◌, ◌/◌, ◌%◌, Bool, ◌&&◌, Option, none, some, List, [], ◌∷◌, length, leb, ltb, ◌==◌,
  if◌then◌else◌,
}

-- The texts of the errors.
pub data KeyError : Type 0 where
  odd_length invalid_character not_32_bytes not_a_key : KeyError

pub data Result (A : Type 0) : Type 0 where
  ok : A → Result A
  err : KeyError → Result A

infixl 5 ◌>>=◌
abbrev pub ◌>>=◌ : {A B : Type 0} → Result A → (A → Result B) → Result B
ok a >>= f = f a
err e >>= f = err e

-- Indexing into "0123456789abcdef"; no index is out of range.
abbrev pub hex_char : ℕ → ℕ
hex_char v = if ltb v 10 then b'0' + v else b'a' + (v - 10)

unfoldable pub hex_encode : List ℕ → List ℕ
hex_encode [] = []
hex_encode (b ∷ bytes) = hex_char (b / 16) ∷ hex_char (b % 16) ∷ hex_encode bytes

unfoldable pub char_from_hex : ℕ → Result ℕ
char_from_hex c =
    if leb b'0' c && leb c b'9'
    then ok (c - b'0')
    else if leb b'a' c && leb c b'f'
    then ok (c - b'a' + 10)
    else if leb b'A' c && leb c b'F'
    then ok (c - b'A' + 10)
    else err invalid_character

-- The loop over pairs; an even text leaves no character over.
unfoldable pub decode_pairs : List ℕ → Result (List ℕ)
decode_pairs [] = ok []
decode_pairs (c ∷ []) = ok []
decode_pairs (c ∷ d ∷ s) = do
  high ← char_from_hex c
  low ← char_from_hex d
  bytes ← decode_pairs s
  ok ((high * 16 + low) ∷ bytes)

unfoldable pub hex_decode : List ℕ → Result (List ℕ)
hex_decode s = if length s % 2 == 0 then decode_pairs s else err odd_length

module _ {VerifyingKey : Type 0} where
  pub peer_id_from_public_key : (VerifyingKey → List ℕ) → VerifyingKey → List ℕ
  peer_id_from_public_key as_bytes pk = hex_encode (as_bytes pk)

  abbrev pub to_key : (List ℕ → Option VerifyingKey) → List ℕ → Result VerifyingKey
  to_key from_bytes bytes =
      if length bytes == 32
      then elim (from_bytes bytes) [ none ↦ err not_a_key | some pk ↦ ok pk ]
      else err not_32_bytes

  unfoldable pub parse_peer_id : (List ℕ → Option VerifyingKey) → List ℕ → Result VerifyingKey
  parse_peer_id from_bytes peer_id = do bytes ← hex_decode peer_id; to_key from_bytes bytes
