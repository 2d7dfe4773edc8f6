-- ===== src/Tests/Tokens.antt =====
-- Tokens of the signaling server, from a registration to a request.
use text.Mathlib.Text.{◌==◌ as str_eq}
use text.Mathlib.TextEquality.{eq_iff}
use three_pillars_voip.Base.{
  ℕ, ◌≡◌, ◌↔◌, ◌≤◌, refl, ap, sym, subst, Bool, true, ◌&&◌, Option, none, some, List, [], ◌∷◌, ◌++◌,
  ◌==◌, arith, if◌then◌else◌, Bool-cases, inl, inr,
}
use three_pillars_voip.Base.Bytes.{IsBytes}
use three_pillars_voip.Base.Maps.{lookup}
use three_pillars_voip.Client.Proxy.Base64.{codes}
use three_pillars_voip.Signaling.Auth.{value, bearer, auth_middleware, is_public_path}
use three_pillars_voip.Signaling.Auth
use three_pillars_voip.Signaling.Auth.Sessions.{with_jwt, register_peer-auth_middleware}
use three_pillars_voip.Signaling.Errors.{Reply, ok, err}
use three_pillars_voip.Signaling.Handlers.{App, RegisterPeerResponse, register_peer}
use three_pillars_voip.Signaling.RateLimit
use three_pillars_voip.Signaling.RateLimit.Buckets.{try_consume, refill}
use three_pillars_voip.Signaling.Jwt.{
  same_text, JwtClaims, ClaimsJson, claims_of, create_jwt, verify_jwt,
}
use three_pillars_voip.Signaling.Jwt.Issued.{Vouched, verify_jwt-create_jwt_iff, verify_jwt-Vouched}
use three_pillars_voip.Tests.Proxies.{toy}
use three_pillars_voip.Tests.Registry.{calling}
use three_pillars_voip.Tests.Sessions.{rest, update_request}

abbrev bobs : JwtClaims
bobs = claims_of 1000 "bob" 3600

abbrev same : JwtClaims → JwtClaims → Bool
same c d =
    str_eq c.sub d.sub
    && (c.iat == d.iat)
    && (c.exp == d.exp)
    && (c.nbf == d.nbf)
    && str_eq c.pub_key d.pub_key

same-≡ : (c d : JwtClaims) → same c d ≡ true → c ≡ d
same-≡ c d h = ground (arith, eq_iff c.sub d.sub, eq_iff c.pub_key d.pub_key)

-- A stand-in for JSON that knows one text, Bob's claims.
abbrev one_text : JwtClaims → Option (List ℕ)
one_text c = if same bobs c then some (1 ∷ []) else none

one_text-some : (c : JwtClaims) (s : List ℕ) → one_text c ≡ some s → (s ≡ 1 ∷ []) × (bobs ≡ c)
one_text-some c s h = elim (Bool-cases (same bobs c)) [
  | inl e ↦ (ground (arith, e), same-≡ bobs c e)
  | inr e ↦ absurd (ground (arith, e))
]

abbrev json : ClaimsJson
json = record {
  to_string = one_text;
  from_slice = λ s. some bobs;
  to_string-IsBytes = λ c s h. subst IsBytes (sym (one_text-some c s h).0) (omega arith, tt);
  from_slice-to_string = λ c s h. ap some (one_text-some c s h).1;
}

abbrev bearer_token : List ℕ
bearer_token = elim (create_jwt toy json 1000 7 "bob" 3600) [ err e ↦ [] | ok token ↦ token ]

verify_jwt-create_jwt_iff_example :
    (verify_jwt toy json 4600 7 bearer_token ≡ ok bobs) ↔ ((1000 ≤ 4600) × (4600 ≤ 4600))
unfolding create_jwt
verify_jwt-create_jwt_iff_example =
    verify_jwt-create_jwt_iff toy json 1000 4600 3600 7 "bob" bearer_token (omega arith) refl

verify_jwt-Vouched_example : Vouched toy json 2000 7 bobs
unfolding create_jwt verify_jwt
verify_jwt-Vouched_example = verify_jwt-Vouched toy json 2000 7 bearer_token bobs (
    (verify_jwt-create_jwt_iff toy json 1000 2000 3600 7 "bob" bearer_token (omega arith) refl).1
      (omega arith, omega arith))

abbrev answered : Option (App rest × Reply RegisterPeerResponse)
answered = register_peer (with_jwt toy json 7 rest) 5 1000 update_request calling

abbrev registered_app : App rest
registered_app = elim answered [ none ↦ calling | some (b, r) ↦ b ]

abbrev response : RegisterPeerResponse
response = elim answered [
  | none ↦ record { peer_id = ""; jwt_token = []; expires_in_secs = 0 }
  | some (b, err e) ↦ record { peer_id = ""; jwt_token = []; expires_in_secs = 0 }
  | some (b, ok r) ↦ r
]

register_peer-auth_middleware_example :
    auth_middleware toy json 2000 7
      (codes "/v1/proxies")
      Auth.get
      (value (bearer ++ response.jwt_token))
    ≡ ok "bob"
unfolding register_peer RateLimit.check RateLimit.check_registration RateLimit.check_map
    RateLimit.entry try_consume refill create_jwt is_public_path lookup same_text Auth.starts_with
register_peer-auth_middleware_example =
    register_peer-auth_middleware toy json rest 7 5 1000 2000 update_request calling registered_app
      response (codes "/v1/proxies") Auth.get refl (omega arith) (omega arith) (omega arith) refl
