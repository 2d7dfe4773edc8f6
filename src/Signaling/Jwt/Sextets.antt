-- ===== src/Signaling/Jwt/Sextets.antt =====
-- The two base64 texts of the repository are six bits a character: jwt.rs of crates/voip-signaling
-- reads its own as proxy.rs of crates/voip-client does.
use three_pillars_voip.Base.{
  ℕ, zero, suc, ◌+◌, ◌-◌, ◌*◌, ◌/◌, ◌%◌, ◌^◌, ◌<◌, ◌≡◌, ◌≢◌, refl, Bool, true, false, ◌&&◌, not,
  Option, none, some, List, [], ◌∷◌, map, leb, ◌==◌, arith, u32_mod, Bool-cases, inl, inr,
}
use three_pillars_voip.Base.Bytes.{IsBytes}
use three_pillars_voip.Client.Proxy.Base64
use three_pillars_voip.Client.Proxy.Base64.{position, pad, trim_end}
use three_pillars_voip.Client.Proxy.Base64.RoundTrip.{
  position-char_of, trim_end-char_of, base64_decode-base64_encode,
}
use three_pillars_voip.Signaling.Jwt.Base64Url.{
  charset, char_of, base64url_encode, decode_table, push, decode_chars, base64url_decode,
}

-- The six bits v are read back from their character, which is neither the padding nor a dot.
is_read : ℕ → Bool
is_read v = elim (decode_table (char_of v)) [
  | none ↦ false
  | some w ↦ (w == v) && not (char_of v == pad) && not (char_of v == b'.')
]

all_read : ℕ → Bool
all_read zero = true
all_read (suc n) = is_read n && all_read n

all_read_lem : all_read 64 ≡ true
unfolding all_read is_read decode_table char_of charset
all_read_lem = refl

all_read-below : (n v : ℕ) → all_read n ≡ true → v < n → is_read v ≡ true
unfolding all_read
all_read-below zero v e h = absurd (omega arith)
all_read-below (suc n) v e h = ground (arith, all_read-below n v)

pub decode_table-char_of :
    (v : ℕ) → v < 64 → (decode_table (char_of v) ≡ some v) × (char_of v ≢ pad) × (char_of v ≢ b'.')
unfolding is_read
decode_table-char_of v h = let e = all_read-below 64 v all_read_lem h in ground arith

-- The six bits of the characters of some bytes.
abbrev pub sextets : List ℕ → List ℕ
sextets [] = []
sextets (b0 ∷ []) = (b0 / 4 % 64) ∷ (b0 % 4 * 16) ∷ []
sextets (b0 ∷ b1 ∷ []) = (b0 / 4 % 64) ∷ (b0 % 4 * 16 + b1 / 16 % 16) ∷ (b1 % 16 * 4) ∷ []
sextets (b0 ∷ b1 ∷ b2 ∷ rest) =
    (b0 / 4 % 64)
    ∷ (b0 % 4 * 16 + b1 / 16 % 16)
    ∷ (b1 % 16 * 4 + b2 / 64 % 4)
    ∷ (b2 % 64)
    ∷ sextets rest

abbrev pub AreSextets : List ℕ → Type 0
AreSextets [] = Unit
AreSextets (v ∷ vs) = (v < 64) × AreSextets vs

pub sextets-AreSextets : (bytes : List ℕ) → AreSextets (sextets bytes)
sextets-AreSextets [] = tt
sextets-AreSextets (b0 ∷ []) = (omega arith, (omega arith, tt))
sextets-AreSextets (b0 ∷ b1 ∷ []) = (omega arith, (omega arith, (omega arith, tt)))
sextets-AreSextets (b0 ∷ b1 ∷ b2 ∷ rest) =
    (omega arith, (omega arith, (omega arith, (omega arith, sextets-AreSextets rest))))

pub base64url_encode-sextets :
    (bytes : List ℕ) → base64url_encode bytes ≡ map char_of (sextets bytes)
unfolding base64url_encode
base64url_encode-sextets [] = refl
base64url_encode-sextets (b0 ∷ []) = refl
base64url_encode-sextets (b0 ∷ b1 ∷ []) = refl
base64url_encode-sextets (b0 ∷ b1 ∷ b2 ∷ rest) = rw (base64url_encode-sextets rest)

-- No character of six bits is trimmed.
trim_end-map : (vs : List ℕ) → AreSextets vs → trim_end (map char_of vs) ≡ map char_of vs
unfolding trim_end
trim_end-map [] h = refl
trim_end-map (v ∷ vs) h = ground (arith, decode_table-char_of v h.0, trim_end-map vs h.1)

-- What the other reader makes of the same six bits.
abbrev to_option : Base64.Decoded → Option (List ℕ)
to_option (Base64.ok bytes) = some bytes
to_option (Base64.invalid at c) = none

to_option-push : (b : ℕ) (d : Base64.Decoded) → to_option (Base64.push b d) ≡ push b (to_option d)
to_option-push b (Base64.ok bytes) = refl
to_option-push b (Base64.invalid at c) = refl

decode_chars-map :
    (i buffer bits : ℕ) (vs : List ℕ)
    → AreSextets vs
    → decode_chars buffer bits (map char_of vs)
      ≡ to_option (Base64.decode_chars i buffer bits (map Base64.char_of vs))
unfolding decode_chars Base64.decode_chars
decode_chars-map i buffer bits [] h = refl
decode_chars-map i buffer bits (v ∷ vs) h =
    let buffer' = (buffer * 64 + v) % u32_mod in
    let e = (decode_table-char_of v h.0).0 in
    let f = (position-char_of v h.0).0 in
    elim (Bool-cases (leb 8 (bits + 6))) [
      | inl l ↦
          let ih = decode_chars-map (i + 1) buffer' (bits + 6 - 8) vs h.1 in
          let p =
            to_option-push (buffer' / 2 ^ (bits + 6 - 8) % 256)
              (Base64.decode_chars (i + 1) buffer' (bits + 6 - 8) (map Base64.char_of vs)) in
          rw (e, decode_chars) (rw (f, Base64.decode_chars) (rw l (rw (ih, p))))
      | inr l ↦
          let ih = decode_chars-map (i + 1) buffer' (bits + 6) vs h.1 in
          rw (e, decode_chars) (rw (f, Base64.decode_chars) (rw l ih))
    ]

-- The text of the other encoder, trimmed, has the same six bits.
trim_end-base64_encode :
    (bytes : List ℕ)
    → IsBytes bytes
    → trim_end (Base64.base64_encode bytes) ≡ map Base64.char_of (sextets bytes)
unfolding Base64.base64_encode
trim_end-base64_encode [] h = unfold trim_end in refl
trim_end-base64_encode (b0 ∷ []) h =
    let t = b0 * 65536 in
    let v : t / 262144 % 64 ≡ b0 / 4 % 64 = omega arith in
    let w : t / 4096 % 64 ≡ b0 % 4 * 16 = omega arith in
    let e0 =
      trim_end-char_of (b0 / 4 % 64) (Base64.char_of (b0 % 4 * 16) ∷ pad ∷ pad ∷ [])
        (omega arith) in
    let e1 = trim_end-char_of (b0 % 4 * 16) (pad ∷ pad ∷ []) (omega arith) in
    let e2 : trim_end (pad ∷ pad ∷ []) ≡ [] = (unfold trim_end in refl) in cc (v, w, e0, e1, e2)
trim_end-base64_encode (b0 ∷ b1 ∷ []) h =
    let t = b0 * 65536 + b1 * 256 in
    let v : t / 262144 % 64 ≡ b0 / 4 % 64 = omega arith in
    let w : t / 4096 % 64 ≡ b0 % 4 * 16 + b1 / 16 % 16 = omega arith in
    let x : t / 64 % 64 ≡ b1 % 16 * 4 = omega arith in
    let c1 : List ℕ = Base64.char_of (b1 % 16 * 4) ∷ pad ∷ [] in
    let c2 : List ℕ = Base64.char_of (b0 % 4 * 16 + b1 / 16 % 16) ∷ c1 in
    let e2 = trim_end-char_of (b1 % 16 * 4) (pad ∷ []) (omega arith) in
    let e1 = trim_end-char_of (b0 % 4 * 16 + b1 / 16 % 16) c1 (omega arith) in
    let e0 = trim_end-char_of (b0 / 4 % 64) c2 (omega arith) in
    let e3 : trim_end (pad ∷ []) ≡ [] = (unfold trim_end in refl) in cc (v, w, x, e0, e1, e2, e3)
trim_end-base64_encode (b0 ∷ b1 ∷ b2 ∷ rest) h =
    let t = b0 * 65536 + b1 * 256 + b2 in
    let v : t / 262144 % 64 ≡ b0 / 4 % 64 = omega arith in
    let w : t / 4096 % 64 ≡ b0 % 4 * 16 + b1 / 16 % 16 = omega arith in
    let x : t / 64 % 64 ≡ b1 % 16 * 4 + b2 / 64 % 4 = omega arith in
    let y : t % 64 ≡ b2 % 64 = omega arith in
    let c1 : List ℕ = Base64.char_of (b2 % 64) ∷ Base64.base64_encode rest in
    let c2 : List ℕ = Base64.char_of (b1 % 16 * 4 + b2 / 64 % 4) ∷ c1 in
    let c3 : List ℕ = Base64.char_of (b0 % 4 * 16 + b1 / 16 % 16) ∷ c2 in
    let e3 = trim_end-char_of (b2 % 64) (Base64.base64_encode rest) (omega arith) in
    let e2 = trim_end-char_of (b1 % 16 * 4 + b2 / 64 % 4) c1 (omega arith) in
    let e1 = trim_end-char_of (b0 % 4 * 16 + b1 / 16 % 16) c2 (omega arith) in
    let e0 = trim_end-char_of (b0 / 4 % 64) c3 (omega arith) in
    cc (v, w, x, y, e0, e1, e2, e3, trim_end-base64_encode rest h.1.1.1)

-- Any bytes come back from their base64url text.
pub base64url_decode-base64url_encode :
    (bytes : List ℕ) → IsBytes bytes → base64url_decode (base64url_encode bytes) ≡ some bytes
unfolding base64url_decode Base64.base64_decode
base64url_decode-base64url_encode bytes h =
    let vs = sextets bytes in
    let a = sextets-AreSextets bytes in
    let e : Base64.decode_chars 0 0 0 (trim_end (Base64.base64_encode bytes)) ≡ Base64.ok bytes =
      base64_decode-base64_encode bytes h in
    cc (
      base64url_encode-sextets bytes,
      trim_end-map vs a,
      decode_chars-map 0 0 0 vs a,
      trim_end-base64_encode bytes h,
      e,
    )
