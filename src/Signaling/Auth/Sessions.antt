-- ===== src/Signaling/Auth/Sessions.antt =====
-- From registration to an authenticated request: handlers.rs, jwt.rs and auth.rs of
-- crates/voip-signaling/src together.
use three_pillars_voip.Base.{
  ℕ, ◌+◌, ◌<◌, ◌≤◌, ◌≡◌, refl, true, false, some, String, List, [], ◌∷◌, ◌++◌, arith, u64_mod,
  Option-cases, Bool-cases, inl, inr,
}
use three_pillars_voip.Client.Proxy.Token.{Ed25519}
use three_pillars_voip.Signaling.Errors.{ok}
use three_pillars_voip.Signaling.Jwt.{ClaimsJson, create_jwt}
use three_pillars_voip.Signaling.Jwt.Issued.{verify_jwt-create_jwt_iff}
use three_pillars_voip.Signaling.Auth.{
  Method, value, strip_prefix, is_public_path, bearer, check_header, auth_middleware,
}
use three_pillars_voip.Signaling.RateLimit
use three_pillars_voip.Signaling.Server.{Server}
use three_pillars_voip.Signaling.Handlers.{
  Rest, RegisterPeerRequest, RegisterPeerResponse, App, register_peer, token_reply,
}

strip_prefix-append : (p s : List ℕ) → strip_prefix p (p ++ s) ≡ some s
unfolding strip_prefix
strip_prefix-append [] s = refl
strip_prefix-append (c ∷ p) s = ground (arith, strip_prefix-append p s)

module _ {SigningKey VerifyingKey : Type 0} (scheme : Ed25519 SigningKey VerifyingKey)
    (json : ClaimsJson) where
  auth_middleware-create_jwt :
      (issued now expiry_secs : ℕ) (key : SigningKey) (peer_id : String) (token path : List ℕ)
      (method : Method)
      → issued + expiry_secs < u64_mod
      → create_jwt scheme json issued key peer_id expiry_secs ≡ ok token
      → issued ≤ now
      → now ≤ issued + expiry_secs
      → is_public_path path method ≡ false
      → auth_middleware scheme json now (scheme.public key) path method (value (bearer ++ token))
        ≡ ok peer_id
  unfolding auth_middleware check_header
  auth_middleware-create_jwt issued now expiry_secs key peer_id token path method h e i n p =
      let v =
        (verify_jwt-create_jwt_iff scheme json issued now expiry_secs key peer_id token h e).1
          (i, n) in
      rw p (rw (strip_prefix-append bearer token) (rw v refl))

  -- The tokens of jwt.rs are those that a registration gives.
  abbrev pub with_jwt :
      {Sender : Type 0} {server : Server Sender} → SigningKey → Rest server → Rest server
  with_jwt key rest = record rest {
    create_jwt = λ secs peer_id expiry_secs. create_jwt scheme json secs key peer_id expiry_secs;
  }

  create_jwt-token_reply :
      {Sender : Type 0} {server : Server Sender} (rest : Rest server) (key : SigningKey) (secs : ℕ)
      (peer_id : String) (a b : App rest) (response : RegisterPeerResponse)
      → token_reply (with_jwt key rest) secs peer_id a ≡ (b, ok response)
      → create_jwt scheme json secs key peer_id rest.jwt_expiry_secs ≡ ok response.jwt_token
  create_jwt-token_reply rest key secs peer_id a b response h = ground arith

  -- The token that a registration at an instant answers with authenticates the peer that was registered,
  -- and no other, on every path that is not public until it expires, if the expiry fits a `u64`.
  pub register_peer-auth_middleware :
      {Sender : Type 0} {server : Server Sender} (rest : Rest server) (key : SigningKey)
      (now secs later : ℕ) (body : RegisterPeerRequest) (a b : App rest)
      (response : RegisterPeerResponse) (path : List ℕ) (method : Method)
      → register_peer (with_jwt key rest) now secs body a ≡ some (b, ok response)
      → secs + rest.jwt_expiry_secs < u64_mod
      → secs ≤ later
      → later ≤ secs + rest.jwt_expiry_secs
      → is_public_path path method ≡ false
      → auth_middleware scheme json later
          (scheme.public key)
          path
          method
          (value (bearer ++ response.jwt_token))
        ≡ ok body.peer_id
  unfolding register_peer
  register_peer-auth_middleware rest key now secs later body a b response path method r h i n p =
      let id = body.peer_id in
      let issued : create_jwt scheme json secs key id rest.jwt_expiry_secs ≡ ok response.jwt_token =
        elim (Bool-cases (rest.is_peer_id id)) [
          | inr f ↦ absurd (ground (arith, f))
          | inl f ↦
              elim (Option-cases (RateLimit.check now id RateLimit.registration a.rate_limiter)) [
                | inl o ↦ absurd (ground (arith, f, o))
                | inr ((limiter, true), o) ↦ ground (arith, f, o)
                | inr ((limiter, false), o) ↦ absurd (ground (arith, f, o))
              ]
        ] in
      auth_middleware-create_jwt secs later rest.jwt_expiry_secs key id response.jwt_token path
        method h issued i n p
