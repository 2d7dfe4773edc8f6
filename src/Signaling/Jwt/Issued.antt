-- ===== src/Signaling/Jwt/Issued.antt =====
-- Tokens that are issued and checked, crates/voip-signaling/src/jwt.rs.
use text.Mathlib.TextEquality.{eq_iff}
use text.Mathlib.TextPositions.{eq_refl}
use three_pillars_voip.Base.{
  append_assoc, ℕ, ◌+◌, ◌<◌, ◌≤◌, ◌≡◌, ◌↔◌, refl, Bool, true, not, ◌&&◌, some, String, List, [],
  ◌∷◌, ◌++◌, map, ◌==◌, arith, u64_mod, Option-cases, inl, inr,
}
use three_pillars_voip.Client.Proxy.Token.{Ed25519}
use three_pillars_voip.Signaling.Errors.{ok}
use three_pillars_voip.Signaling.Jwt.{
  JwtClaims, ClaimsJson, jwt_header, dot, split_dots, same_text, claims_of, check_claims,
  signing_input, signed_token, create_jwt, read_claims, verify_parts, verify_jwt,
}
use three_pillars_voip.Signaling.Jwt.Base64Url.{char_of, base64url_encode, base64url_decode}
use three_pillars_voip.Signaling.Jwt.Sextets.{
  sextets, AreSextets, sextets-AreSextets, base64url_encode-sextets, decode_table-char_of,
  base64url_decode-base64url_encode,
}

no_dot : List ℕ → Bool
no_dot [] = true
no_dot (c ∷ cs) = not (c == dot) && no_dot cs

no_dot-map : (vs : List ℕ) → AreSextets vs → no_dot (map char_of vs) ≡ true
unfolding no_dot
no_dot-map [] h = refl
no_dot-map (v ∷ vs) h = ground (arith, decode_table-char_of v h.0, no_dot-map vs h.1)

no_dot-base64url_encode : (bytes : List ℕ) → no_dot (base64url_encode bytes) ≡ true
no_dot-base64url_encode bytes =
    rw (base64url_encode-sextets bytes) (no_dot-map (sextets bytes) (sextets-AreSextets bytes))

no_dot-jwt_header : no_dot jwt_header ≡ true
unfolding no_dot jwt_header
no_dot-jwt_header = refl

-- A text without a dot is one part, and the part before the dot that follows it.
split_dots-last : (cs : List ℕ) → no_dot cs ≡ true → split_dots cs ≡ cs ∷ []
unfolding split_dots no_dot
split_dots-last [] h = refl
split_dots-last (c ∷ cs) h = ground (arith, split_dots-last cs)

split_dots-part :
    (cs rest : List ℕ) → no_dot cs ≡ true → split_dots (cs ++ (dot ∷ rest)) ≡ cs ∷ split_dots rest
unfolding split_dots no_dot
split_dots-part [] rest h = refl
split_dots-part (c ∷ cs) rest h = ground (arith, split_dots-part cs rest)

same_text_refl : (cs : List ℕ) → same_text cs cs ≡ true
unfolding same_text
same_text_refl [] = refl
same_text_refl (c ∷ cs) = ground (arith, same_text_refl cs)

same_text-≡ : (cs ds : List ℕ) → same_text cs ds ≡ true → cs ≡ ds
unfolding same_text
same_text-≡ [] [] h = refl
same_text-≡ [] (d ∷ ds) h = absurd (ground arith)
same_text-≡ (c ∷ cs) [] h = absurd (ground arith)
same_text-≡ (c ∷ cs) (d ∷ ds) h = ground (arith, same_text-≡ cs ds)

module _ {SigningKey VerifyingKey : Type 0} (scheme : Ed25519 SigningKey VerifyingKey)
    (json : ClaimsJson) where
  split_dots-signed_token :
      (key : SigningKey) (payload : List ℕ)
      → let p = base64url_encode payload in
        split_dots (signed_token scheme json key p)
        ≡ jwt_header
          ∷ p
          ∷ base64url_encode (scheme.sign_bytes key (signing_input scheme json jwt_header p))
          ∷ []
  split_dots-signed_token key payload =
      let p = base64url_encode payload in
      let s = base64url_encode (scheme.sign_bytes key (signing_input scheme json jwt_header p)) in
      cc (
        append_assoc jwt_header (dot ∷ p) (dot ∷ s),
        split_dots-part jwt_header (p ++ (dot ∷ s)) no_dot-jwt_header,
        split_dots-part p s (no_dot-base64url_encode payload),
        split_dots-last s (
            no_dot-base64url_encode
              (scheme.sign_bytes key (signing_input scheme json jwt_header p))),
      )

  verify_jwt-signed_token :
      (now : ℕ) (key : SigningKey) (payload : List ℕ)
      → verify_jwt scheme json now
          (scheme.public key)
          (signed_token scheme json key (base64url_encode payload))
        ≡ read_claims scheme json now (base64url_encode payload)
  unfolding verify_jwt verify_parts
  verify_jwt-signed_token now key payload =
      let input = signing_input scheme json jwt_header (base64url_encode payload) in
      let signature = scheme.sign_bytes key input in
      ground (
        arith,
        split_dots-signed_token key payload,
        same_text_refl jwt_header,
        base64url_decode-base64url_encode signature (scheme.sign_bytes-IsBytes key input),
        scheme.length-sign_bytes key input,
        scheme.accepts-sign_bytes key input,
      )

  -- A token that was issued is accepted with its claims, under the key of its issuer, exactly from the
  -- instant of its issue to that of its expiry, both included, if the expiry fits a `u64`.
  pub verify_jwt-create_jwt_iff :
      (issued now expiry_secs : ℕ) (key : SigningKey) (peer_id : String) (token : List ℕ)
      → issued + expiry_secs < u64_mod
      → create_jwt scheme json issued key peer_id expiry_secs ≡ ok token
      → (verify_jwt scheme json now (scheme.public key) token
          ≡ ok (claims_of issued peer_id expiry_secs))
        ↔ ((issued ≤ now) × (now ≤ issued + expiry_secs))
  unfolding create_jwt read_claims check_claims
  verify_jwt-create_jwt_iff issued now expiry_secs key peer_id token h e =
      let c = claims_of issued peer_id expiry_secs in
      elim (Option-cases (json.to_string c)) [
        | inl n ↦ absurd (ground (arith, n))
        | inr (payload, p) ↦
            let t : token ≡ signed_token scheme json key (base64url_encode payload) =
              ground (arith, p) in
            let v = verify_jwt-signed_token now key payload in
            let d =
              base64url_decode-base64url_encode payload (json.to_string-IsBytes c payload p) in
            let j = json.from_slice-to_string c payload p in
            (
              λ g. ground (arith, t, v, d, j, eq_refl peer_id),
              λ g. ground (arith, t, v, d, j, eq_refl peer_id),
            )
      ]

  -- A payload that the key has signed under the header holds the claims; they name one peer and key, and
  -- hold at the instant.
  abbrev pub Vouched : ℕ → VerifyingKey → JwtClaims → Type 0
  Vouched now key c =
      (payload : List ℕ) × (signature : List ℕ) × (bytes : List ℕ) × ((scheme.accepts key
            (signing_input scheme json jwt_header payload) signature
          ≡ true)
        × (base64url_decode payload ≡ some bytes)
        × (json.from_slice bytes ≡ some c)
        × (c.sub ≡ c.pub_key)
        × (c.nbf ≤ now)
        × (now ≤ c.exp))

  check_claims-ok :
      (now : ℕ) (d c : JwtClaims)
      → check_claims now d ≡ ok c
      → (d ≡ c) × (d.sub ≡ d.pub_key) × (d.nbf ≤ now) × (now ≤ d.exp)
  unfolding check_claims
  check_claims-ok now d c h = ground (arith, eq_iff d.sub d.pub_key)

  read_claims-ok :
      (now : ℕ) (key : VerifyingKey) (payload signature : List ℕ) (c : JwtClaims)
      → scheme.accepts key (signing_input scheme json jwt_header payload) signature ≡ true
      → read_claims scheme json now payload ≡ ok c
      → Vouched now key c
  unfolding read_claims
  read_claims-ok now key payload signature c a h = elim (Option-cases (base64url_decode payload)) [
    | inl o ↦ absurd (ground (arith, o))
    | inr (bytes, o) ↦ elim (Option-cases (json.from_slice bytes)) [
      | inl q ↦ absurd (ground (arith, o, q))
      | inr (d, q) ↦
          let e = check_claims-ok now d c (ground (arith, o, q)) in
          (
            payload,
            signature,
            bytes,
            (a, o, ground (arith, q, e), ground (arith, e), ground (arith, e), ground (arith, e)),
          )
    ]
  ]

  verify_parts-ok :
      (now : ℕ) (key : VerifyingKey) (parts : List (List ℕ)) (c : JwtClaims)
      → verify_parts scheme json now key parts ≡ ok c
      → Vouched now key c
  unfolding verify_parts
  verify_parts-ok now key [] c h = absurd (ground arith)
  verify_parts-ok now key (header ∷ []) c h = absurd (ground arith)
  verify_parts-ok now key (header ∷ payload ∷ []) c h = absurd (ground arith)
  verify_parts-ok now key (header ∷ payload ∷ s ∷ p ∷ ps) c h = absurd (ground arith)
  verify_parts-ok now key (header ∷ payload ∷ s ∷ []) c h =
      elim (Option-cases (base64url_decode s)) [
        | inl o ↦ absurd (ground (arith, o))
        | inr (signature, o) ↦
            let e = same_text-≡ header jwt_header in
            read_claims-ok now key payload signature c (ground (arith, o, e)) (ground (arith, o))
      ]

  -- A token is accepted only if a payload that the key has signed under the header holds its claims; they
  -- name one peer and key, and the instant is not before their start nor after their expiry.
  pub verify_jwt-Vouched :
      (now : ℕ) (key : VerifyingKey) (token : List ℕ) (c : JwtClaims)
      → verify_jwt scheme json now key token ≡ ok c
      → Vouched now key c
  unfolding verify_jwt
  verify_jwt-Vouched now key token c h = verify_parts-ok now key (split_dots token) c h
