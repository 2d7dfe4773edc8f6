-- ===== src/Signaling/Auth.antt =====
-- The check of requests in crates/voip-signaling/src/auth.rs: which paths are public, and whose token
-- the others carry. A text is the list of its bytes. The detail that an error text repeats from another
-- error is left out.
pub mod Sessions
use three_pillars_voip.Base.{
  ℕ, Bool, true, false, ◌&&◌, ◌||◌, Option, none, some, String, List, [], ◌∷◌, ◌==◌, if◌then◌else◌,
}
use three_pillars_voip.Client.Proxy.Base64.{codes}
use three_pillars_voip.Client.Proxy.Token.{Ed25519}
use three_pillars_voip.Signaling.Errors.{unauthorized, Reply, ok, err}
use three_pillars_voip.Signaling.Jwt.{JwtClaims, ClaimsJson, same_text, verify_jwt}

pub data Method : Type 0 where
  get post other : Method

abbrev pub is_get : Method → Bool
is_get get = true
is_get post = false
is_get other = false

abbrev pub is_post : Method → Bool
is_post post = true
is_post get = false
is_post other = false

-- What follows a prefix.
unfoldable pub strip_prefix : List ℕ → List ℕ → Option (List ℕ)
strip_prefix [] s = some s
strip_prefix (p ∷ ps) [] = none
strip_prefix (p ∷ ps) (c ∷ cs) = if p == c then strip_prefix ps cs else none

unfoldable pub starts_with : List ℕ → List ℕ → Bool
unfolding strip_prefix
starts_with prefix s = elim (strip_prefix prefix s) [ none ↦ false | some rest ↦ true ]

unfoldable pub is_public_path : List ℕ → Method → Bool
is_public_path path method =
    (same_text path (codes "/v1/peers") && is_post method)
    || (same_text path (codes "/v1/myip") && is_get method)
    || (same_text path (codes "/v1/ws") && is_get method)
    || (same_text path (codes "/v1/openapi.json") && is_get method)
    || (starts_with (codes "/swagger-ui") path && is_get method)

-- The `Authorization` header of a request.
pub data Header : Type 0 where
  missing not_text : Header
  value : List ℕ → Header

unfoldable pub bearer : List ℕ
bearer = codes "Bearer "

module _ {SigningKey VerifyingKey : Type 0} (scheme : Ed25519 SigningKey VerifyingKey)
    (json : ClaimsJson) where
  abbrev pub subject_of : Reply JwtClaims → Reply String
  subject_of (ok c) = ok c.sub
  subject_of (err e) = err (unauthorized "invalid JWT")

  abbrev pub check_bearer : ℕ → VerifyingKey → Option (List ℕ) → Reply String
  check_bearer now key none = err (unauthorized "Authorization header must use Bearer scheme")
  check_bearer now key (some token) = subject_of (verify_jwt scheme json now key token)

  unfoldable pub check_header : ℕ → VerifyingKey → Header → Reply String
  check_header now key missing = err (unauthorized "missing Authorization header")
  check_header now key not_text = err (unauthorized "invalid Authorization header")
  check_header now key (value s) = check_bearer now key (strip_prefix bearer s)

  -- The peer that the handlers see, none by its empty id on a public path.
  unfoldable pub auth_middleware : ℕ → VerifyingKey → List ℕ → Method → Header → Reply String
  auth_middleware now key path method header =
      if is_public_path path method then ok "" else check_header now key header
