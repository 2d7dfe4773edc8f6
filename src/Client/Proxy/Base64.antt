-- ===== src/Client/Proxy/Base64.antt =====
-- The base64 of crates/voip-client/src/proxy.rs. A text is the list of its characters' codes.
pub mod RoundTrip
use Prim.Native.Char.{code}
use three_pillars_voip.Base.{
  ℕ, zero, suc, ◌+◌, ◌-◌, ◌*◌, ◌/◌, ◌%◌, ◌^◌, Bool, true, false, Option, none, some, List, [], ◌∷◌,
  String, leb, ◌==◌, if◌then◌else◌, u32_mod,
}

abbrev pub codes : String → List ℕ
codes String.[] = []
codes (String.◌∷◌ c rest) = code c ∷ codes rest

unfoldable pub charset : List ℕ
charset = codes "ABCDEFGHIJKLMNOPQRSTUVWXYZabcdefghijklmnopqrstuvwxyz0123456789+/"

-- Indexing; no index here is out of range.
abbrev pub nth : List ℕ → ℕ → ℕ
nth [] i = 0
nth (c ∷ cs) zero = c
nth (c ∷ cs) (suc i) = nth cs i

unfoldable pub position : ℕ → List ℕ → Option ℕ
position c [] = none
position c (d ∷ ds) =
    if d == c then some 0 else elim (position c ds) [ none ↦ none | some i ↦ some (suc i) ]

abbrev pub pad : ℕ
pad = b'='

-- The character of six bits.
unfoldable pub char_of : ℕ → ℕ
unfolding charset
char_of v = nth charset v

-- Three bytes give four characters; the six bits of `triple` are taken out one after the other.
unfoldable pub base64_encode : List ℕ → List ℕ
base64_encode [] = []
base64_encode (b0 ∷ []) =
    let triple = b0 * 65536 in
    char_of (triple / 262144 % 64) ∷ char_of (triple / 4096 % 64) ∷ pad ∷ pad ∷ []
base64_encode (b0 ∷ b1 ∷ []) =
    let triple = b0 * 65536 + b1 * 256 in
    char_of (triple / 262144 % 64)
    ∷ char_of (triple / 4096 % 64)
    ∷ char_of (triple / 64 % 64)
    ∷ pad
    ∷ []
base64_encode (b0 ∷ b1 ∷ b2 ∷ rest) =
    let triple = b0 * 65536 + b1 * 256 + b2 in
    char_of (triple / 262144 % 64)
    ∷ char_of (triple / 4096 % 64)
    ∷ char_of (triple / 64 % 64)
    ∷ char_of (triple % 64)
    ∷ base64_encode rest

-- `trim_end_matches('=')`.
unfoldable pub trim_end : List ℕ → List ℕ
trim_end [] = []
trim_end (c ∷ cs) = elim (trim_end cs) [
  | [] ↦ if c == pad then [] else c ∷ []
  | d ∷ ds ↦ c ∷ d ∷ ds
]

-- The error carries the position and the character.
pub data Decoded : Type 0 where
  ok : List ℕ → Decoded
  invalid : (at c : ℕ) → Decoded

abbrev pub push : ℕ → Decoded → Decoded
push b (ok bs) = ok (b ∷ bs)
push b (invalid at c) = invalid at c

-- The loop: `buffer` is a `u32` that keeps old bits above the ones that count, `bits` of them.
unfoldable pub decode_chars : ℕ → ℕ → ℕ → List ℕ → Decoded
decode_chars i buffer bits [] = ok []
decode_chars i buffer bits (c ∷ cs) = elim (position c charset) [
  | none ↦ invalid i c
  | some val ↦
      let buffer' = (buffer * 64 + val) % u32_mod in
      let full = leb 8 (bits + 6) in
      let bits' = if full then bits + 6 - 8 else bits + 6 in
      let rest = decode_chars (i + 1) buffer' bits' cs in
      if full then push (buffer' / 2 ^ bits' % 256) rest else rest
]

unfoldable pub base64_decode : List ℕ → Decoded
unfolding trim_end decode_chars
base64_decode input = decode_chars 0 0 0 (trim_end input)
