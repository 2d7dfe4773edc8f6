-- ===== src/Client/Proxy/Token/Signing.antt =====
-- What the signature of a proxy token (crates/voip-client/src/proxy.rs) stands for.
use three_pillars_voip.Base.{
  ℕ, ◌+◌, ◌-◌, ◌%◌, ◌^◌, ◌<◌, ◌≡◌, ◌↔◌, refl, sym, ap, ◌∙◌, none, true, List, ◌++◌, length, arith,
  min, u64_mod,
}
use three_pillars_voip.Base.Bytes.{
  take, drop, take-append, drop-append, to_be_bytes, from_be_bytes, length-to_be_bytes,
  from_be_bytes-to_be_bytes,
}
use three_pillars_voip.Client.Proxy.Token.{
  Ed25519, is_expired, signing_message, sign, verify, check_token,
}

-- Where equal lists split at the same length, the parts are equal.
split :
    (k : ℕ) (xs ys us vs : List ℕ)
    → length xs ≡ k
    → length ys ≡ k
    → xs ++ us ≡ ys ++ vs
    → (xs ≡ ys) × (us ≡ vs)
split k xs ys us vs h l e = (
  sym (take-append k xs us h) ∙ (ap (take k) e ∙ take-append k ys vs l),
  sym (drop-append k xs us h) ∙ (ap (drop k) e ∙ drop-append k ys vs l),
)

to_be_bytes-injective :
    (k m n : ℕ) → m < 256 ^ k → n < 256 ^ k → to_be_bytes k m ≡ to_be_bytes k n → m ≡ n
to_be_bytes-injective k m n h l e =
    sym (from_be_bytes-to_be_bytes k m h) ∙ (ap from_be_bytes e ∙ from_be_bytes-to_be_bytes k n l)

-- A text behind its length can be told from what follows.
field :
    (xs ys us vs : List ℕ)
    → length xs < 2 ^ 32
    → length ys < 2 ^ 32
    → to_be_bytes 4 (length xs % 2 ^ 32) ++ (xs ++ us)
      ≡ to_be_bytes 4 (length ys % 2 ^ 32) ++ (ys ++ vs)
    → (xs ≡ ys) × (us ≡ vs)
field xs ys us vs h l e =
    let (p, q) = split 4 _ _ _ _ (length-to_be_bytes 4 _) (length-to_be_bytes 4 _) e in
    let m =
      to_be_bytes-injective 4 (length xs % 2 ^ 32) (length ys % 2 ^ 32) (omega arith) (omega arith)
        p in
    split (length ys) xs ys us vs (omega arith) refl q

-- Two signed messages are the same only if all four fields are: no other peer, proxy or time is
-- covered by a signature. The texts are shorter than 2^32 bytes and the times are `u64`s.
pub signing_message-injective :
    (p q u v : List ℕ) (e f i j : ℕ)
    → length p < 2 ^ 32
    → length q < 2 ^ 32
    → length u < 2 ^ 32
    → length v < 2 ^ 32
    → e < 2 ^ 64
    → f < 2 ^ 64
    → i < 2 ^ 64
    → j < 2 ^ 64
    → signing_message p u e i ≡ signing_message q v f j
    → (p ≡ q) × (u ≡ v) × (e ≡ f) × (i ≡ j)
unfolding signing_message
signing_message-injective p q u v e f i j hp hq hu hv he hf hi hj h =
    let (a, r) = field p q _ _ hp hq h in
    let (b, s) = field u v _ _ hu hv r in
    let (c, d) = split 8 _ _ _ _ (length-to_be_bytes 8 e) (length-to_be_bytes 8 f) s in
    (
      a,
      b,
      to_be_bytes-injective 8 e f (omega arith) (omega arith) c,
      to_be_bytes-injective 8 i j (omega arith) (omega arith) d,
    )

module _ {SigningKey VerifyingKey : Type 0} (scheme : Ed25519 SigningKey VerifyingKey) where
  verify-sign :
      (now ttl : ℕ) (peer_id proxy_url : List ℕ) (key : SigningKey)
      → verify scheme (scheme.public key) (sign scheme now peer_id proxy_url key ttl) ≡ true
  unfolding verify sign
  verify-sign now ttl peer_id proxy_url key = ground (
    arith,
    scheme.length-sign_bytes key
        (signing_message peer_id proxy_url (min (now + ttl) (u64_mod - 1)) now),
    scheme.accepts-sign_bytes key
        (signing_message peer_id proxy_url (min (now + ttl) (u64_mod - 1)) now),
  )

  -- A token that was just signed is accepted with the signer's public key exactly until its time to
  -- live, added to the time of signing and capped at the last `u64`, is over.
  pub check_token-sign_iff :
      (now later ttl : ℕ) (peer_id proxy_url : List ℕ) (key : SigningKey)
      → (check_token scheme later (scheme.public key) (sign scheme now peer_id proxy_url key ttl)
          ≡ none)
        ↔ (later < min (now + ttl) (u64_mod - 1))
  unfolding check_token is_expired sign
  check_token-sign_iff now later ttl peer_id proxy_url key =
      let v = verify-sign now ttl peer_id proxy_url key in (λ h. ground arith, λ h. ground arith)
