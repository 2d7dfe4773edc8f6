-- ===== src/Signaling/Jwt/Base64Url.antt =====
-- The base64url of crates/voip-signaling/src/jwt.rs, without padding. A text is the list of its bytes.
use three_pillars_voip.Base.{
  ℕ, ◌+◌, ◌-◌, ◌*◌, ◌/◌, ◌%◌, ◌^◌, ◌&&◌, Option, none, some, List, [], ◌∷◌, leb, ◌==◌,
  if◌then◌else◌, u32_mod,
}
use three_pillars_voip.Client.Proxy.Base64.{codes, nth, trim_end}

unfoldable pub charset : List ℕ
charset = codes "ABCDEFGHIJKLMNOPQRSTUVWXYZabcdefghijklmnopqrstuvwxyz0123456789-_"

unfoldable pub char_of : ℕ → ℕ
unfolding charset
char_of v = nth charset v

-- The bytes after a missing one count as 0, and the loop ends there.
unfoldable pub base64url_encode : List ℕ → List ℕ
base64url_encode [] = []
base64url_encode (b0 ∷ []) = char_of (b0 / 4 % 64) ∷ char_of (b0 % 4 * 16) ∷ []
base64url_encode (b0 ∷ b1 ∷ []) =
    char_of (b0 / 4 % 64) ∷ char_of (b0 % 4 * 16 + b1 / 16 % 16) ∷ char_of (b1 % 16 * 4) ∷ []
base64url_encode (b0 ∷ b1 ∷ b2 ∷ rest) =
    char_of (b0 / 4 % 64)
    ∷ char_of (b0 % 4 * 16 + b1 / 16 % 16)
    ∷ char_of (b1 % 16 * 4 + b2 / 64 % 4)
    ∷ char_of (b2 % 64)
    ∷ base64url_encode rest

-- DECODE_TABLE; `none` is -1.
unfoldable pub decode_table : ℕ → Option ℕ
decode_table i =
    if leb 65 i && leb i 90
    then some (i - 65)
    else if leb 97 i && leb i 122
    then some (i - 97 + 26)
    else if leb 48 i && leb i 57
    then some (i - 48 + 52)
    else if i == 45
    then some 62
    else if i == 95
    then some 63
    else none

abbrev pub push : ℕ → Option (List ℕ) → Option (List ℕ)
push b none = none
push b (some bytes) = some (b ∷ bytes)

-- The loop: `buffer` is a `u32` that keeps old bits above the ones that count, `bits` of them.
unfoldable pub decode_chars : ℕ → ℕ → List ℕ → Option (List ℕ)
decode_chars buffer bits [] = some []
decode_chars buffer bits (c ∷ cs) = elim (decode_table c) [
  | none ↦ none
  | some val ↦
      let buffer' = (buffer * 64 + val) % u32_mod in
      let full = leb 8 (bits + 6) in
      let bits' = if full then bits + 6 - 8 else bits + 6 in
      let rest = decode_chars buffer' bits' cs in
      if full then push (buffer' / 2 ^ bits' % 256) rest else rest
]

unfoldable pub base64url_decode : List ℕ → Option (List ℕ)
unfolding trim_end decode_chars
base64url_decode input = decode_chars 0 0 (trim_end input)
