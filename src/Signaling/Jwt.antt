-- ===== src/Signaling/Jwt.antt =====
-- The tokens of crates/voip-signaling/src/jwt.rs: claims, signed as `header.payload.signature`. A text
-- is the list of its bytes; the JSON of serde_json is the interface `ClaimsJson`, and the clock an
-- argument. The detail that an error text repeats from another error is left out.
pub mod Base64Url
pub mod Sextets
pub mod Issued
use text.Mathlib.Text.{◌==◌ as str_eq}
use three_pillars_voip.Base.{
  ℕ, ◌+◌, ◌%◌, ◌≡◌, Bool, true, false, not, ◌&&◌, Option, none, some, String, List, [], ◌∷◌, ◌++◌,
  length, ltb, ◌==◌, if◌then◌else◌, u64_mod,
}
use three_pillars_voip.Base.Bytes.{IsBytes}
use three_pillars_voip.Client.Proxy.Base64.{codes}
use three_pillars_voip.Client.Proxy.Token.{Ed25519}
use three_pillars_voip.Signaling.Errors.{SignalingError, invalid_jwt, internal, Reply, ok, err}
use three_pillars_voip.Signaling.Jwt.Base64Url.{base64url_encode, base64url_decode}

pub record JwtClaims : Type 0 where
  pub sub : String
  pub iat : ℕ
  pub exp : ℕ
  pub nbf : ℕ
  pub pub_key : String

-- What is written is bytes, and is read back.
pub record ClaimsJson : Type 0 where
  pub to_string : JwtClaims → Option (List ℕ)
  pub from_slice : List ℕ → Option JwtClaims
  pub to_string-IsBytes : (c : JwtClaims) (s : List ℕ) → to_string c ≡ some s → IsBytes s
  pub from_slice-to_string :
      (c : JwtClaims) (s : List ℕ) → to_string c ≡ some s → from_slice s ≡ some c

unfoldable pub jwt_header : List ℕ
jwt_header = codes "eyJhbGciOiJFZERTQSIsInR5cCI6IkpXVCJ9"

abbrev pub dot : ℕ
dot = b'.'

-- The parts of a text between its dots, at least one.
abbrev pub onto_first : ℕ → List (List ℕ) → List (List ℕ)
onto_first c [] = (c ∷ []) ∷ []
onto_first c (p ∷ ps) = (c ∷ p) ∷ ps

unfoldable pub split_dots : List ℕ → List (List ℕ)
split_dots [] = [] ∷ []
split_dots (c ∷ cs) =
    let parts = split_dots cs in if c == dot then [] ∷ parts else onto_first c parts

unfoldable pub same_text : List ℕ → List ℕ → Bool
same_text [] [] = true
same_text [] (d ∷ ds) = false
same_text (c ∷ cs) [] = false
same_text (c ∷ cs) (d ∷ ds) = (c == d) && same_text cs ds

abbrev pub refused : {A : Type 0} → String → Reply A
refused text = err (invalid_jwt text)

-- The claims of a token for a peer.
abbrev pub claims_of : ℕ → String → ℕ → JwtClaims
claims_of now peer_id expiry_secs = record {
  sub = peer_id;
  iat = now;
  exp = (now + expiry_secs) % u64_mod;
  nbf = now;
  pub_key = peer_id;
}

-- Expiry, then the key, then the start.
unfoldable pub check_claims : ℕ → JwtClaims → Reply JwtClaims
check_claims now c =
    if ltb c.exp now
    then refused "token expired"
    else if not (str_eq c.sub c.pub_key)
    then refused "sub claim does not match pub_key claim"
    else if ltb now c.nbf
    then refused "token not yet valid"
    else ok c

module _ {SigningKey VerifyingKey : Type 0} (scheme : Ed25519 SigningKey VerifyingKey)
    (json : ClaimsJson) where
  abbrev pub signing_input : List ℕ → List ℕ → List ℕ
  signing_input header payload = header ++ (dot ∷ payload)

  abbrev pub signed_token : SigningKey → List ℕ → List ℕ
  signed_token key payload =
      let input = signing_input jwt_header payload in
      input ++ (dot ∷ base64url_encode (scheme.sign_bytes key input))

  unfoldable pub create_jwt : ℕ → SigningKey → String → ℕ → Reply (List ℕ)
  create_jwt now key peer_id expiry_secs =
      elim (json.to_string (claims_of now peer_id expiry_secs)) [
        | none ↦ err (internal "failed to serialize claims")
        | some payload ↦ ok (signed_token key (base64url_encode payload))
      ]

  unfoldable pub read_claims : ℕ → List ℕ → Reply JwtClaims
  read_claims now payload_b64 = elim (base64url_decode payload_b64) [
    | none ↦ refused "invalid payload encoding"
    | some payload ↦ elim (json.from_slice payload) [
      | none ↦ refused "invalid claims JSON"
      | some c ↦ check_claims now c
    ]
  ]

  unfoldable pub verify_parts : ℕ → VerifyingKey → List (List ℕ) → Reply JwtClaims
  verify_parts now key [] = refused "invalid JWT format"
  verify_parts now key (header ∷ []) = refused "invalid JWT format"
  verify_parts now key (header ∷ payload_b64 ∷ []) = refused "invalid JWT format"
  verify_parts now key (header ∷ payload_b64 ∷ sig_b64 ∷ []) =
      if not (same_text header jwt_header)
      then refused "invalid JWT header"
      else elim (base64url_decode sig_b64) [
        | none ↦ refused "invalid signature encoding"
        | some signature ↦
            if not (length signature == 64)
            then refused "invalid signature length"
            else if scheme.accepts key (signing_input header payload_b64) signature
            then read_claims now payload_b64
            else refused "invalid JWT signature"
      ]
  verify_parts now key (header ∷ payload_b64 ∷ sig_b64 ∷ p ∷ ps) = refused "invalid JWT format"

  unfoldable pub verify_jwt : ℕ → VerifyingKey → List ℕ → Reply JwtClaims
  verify_jwt now key token = verify_parts now key (split_dots token)
