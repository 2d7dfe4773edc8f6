-- ===== src/Client/Proxy/Token.antt =====
-- The proxy token of crates/voip-client/src/proxy.rs. A text is the list of its UTF-8 bytes, the
-- clock is an argument, in seconds since 1970, and the Ed25519 crate is a parameter.
pub mod Reading
pub mod RoundTrip
pub mod Signing
use three_pillars_voip.Base.{
  ℕ, zero, suc, ◌+◌, ◌-◌, ◌%◌, ◌^◌, ◌≡◌, Bool, true, false, not, ◌&&◌, Option, none, some, List, [],
  ◌∷◌, ◌++◌, length, ltb, leb, ◌==◌, min, if◌then◌else◌, u64_mod,
}
use three_pillars_voip.Base.Bytes.{IsBytes, take, drop, to_be_bytes, from_be_bytes}
use three_pillars_voip.Client.Proxy.Base64.{base64_encode, base64_decode}
use three_pillars_voip.Client.Proxy.Base64

pub record ProxyToken : Type 0 where
  pub peer_id : List ℕ
  pub proxy_url : List ℕ
  pub expires_at : ℕ
  pub issued_at : ℕ
  pub signature : List ℕ

-- The last five are deserialization errors, which the source tells apart by their texts.
pub data ProxyTokenError : Type 0 where
  invalid_signature : ProxyTokenError
  expired : (expires_at : ℕ) → ProxyTokenError
  base64_decode_error : (at c : ℕ) → ProxyTokenError
  underflow_u16 underflow_u64 invalid_utf8 : ProxyTokenError
  underflow_string : (len pos : ℕ) → ProxyTokenError
  invalid_signature_length : ℕ → ProxyTokenError

pub data Result (A : Type 0) : Type 0 where
  ok : A → Result A
  err : ProxyTokenError → Result A

infixl 5 ◌>>=◌
abbrev pub ◌>>=◌ : {A B : Type 0} → Result A → (A → Result B) → Result B
ok a >>= f = f a
err e >>= f = err e

-- After the first byte of a character, how many more there are, and the range of the next.
abbrev utf8_start : ℕ → Option (ℕ × ℕ × ℕ)
utf8_start b =
    if ltb b 0x80
    then some (0, 0, 0)
    else if ltb b 0xC2
    then none
    else if ltb b 0xE0
    then some (1, 0x80, 0xBF)
    else if b == 0xE0
    then some (2, 0xA0, 0xBF)
    else if b == 0xED
    then some (2, 0x80, 0x9F)
    else if ltb b 0xF0
    then some (2, 0x80, 0xBF)
    else if b == 0xF0
    then some (3, 0x90, 0xBF)
    else if ltb b 0xF4
    then some (3, 0x80, 0xBF)
    else if b == 0xF4
    then some (3, 0x80, 0x8F)
    else none

unfoldable pub utf8_from : ℕ → ℕ → ℕ → List ℕ → Bool
utf8_from need low high [] = need == 0
utf8_from zero low high (b ∷ bs) = elim (utf8_start b) [
  | none ↦ false
  | some (need, low', high') ↦ utf8_from need low' high' bs
]
utf8_from (suc need) low high (b ∷ bs) = leb low b && leb b high && utf8_from need 0x80 0xBF bs

-- What `String::from_utf8` accepts.
abbrev pub is_utf8 : List ℕ → Bool
is_utf8 = utf8_from 0 0 0

-- A read gives the value and the position behind it.
pub read_u16_be : List ℕ → ℕ → Result (ℕ × ℕ)
read_u16_be buf pos =
    if ltb (length buf) (pos + 2)
    then err underflow_u16
    else ok (from_be_bytes (take 2 (drop pos buf)), pos + 2)

pub read_u64_be : List ℕ → ℕ → Result (ℕ × ℕ)
read_u64_be buf pos =
    if ltb (length buf) (pos + 8)
    then err underflow_u64
    else ok (from_be_bytes (take 8 (drop pos buf)), pos + 8)

pub read_string : List ℕ → ℕ → ℕ → Result (List ℕ × ℕ)
read_string buf pos len =
    let bytes = take len (drop pos buf) in
    if ltb (length buf) (pos + len)
    then err (underflow_string len pos)
    else if is_utf8 bytes
    then ok (bytes, pos + len)
    else err invalid_utf8

-- The lengths are cut to a `u16`.
pub token_bytes : ProxyToken → List ℕ
token_bytes t =
    to_be_bytes 2 (length t.peer_id % 65536)
    ++ (t.peer_id
        ++ (to_be_bytes 2 (length t.proxy_url % 65536)
            ++ (t.proxy_url
                ++ (to_be_bytes 8 t.expires_at ++ (to_be_bytes 8 t.issued_at ++ t.signature)))))

pub encode : ProxyToken → List ℕ
unfolding token_bytes
encode t = base64_encode (token_bytes t)

pub decode_bytes : List ℕ → Result ProxyToken
unfolding read_u16_be read_u64_be read_string
decode_bytes buf = do
  (peer_id_len, pos1) ← read_u16_be buf 0
  (peer_id, pos2) ← read_string buf pos1 peer_id_len
  (url_len, pos3) ← read_u16_be buf pos2
  (proxy_url, pos4) ← read_string buf pos3 url_len
  (expires_at, pos5) ← read_u64_be buf pos4
  (issued_at, pos6) ← read_u64_be buf pos5
  if not (length buf - pos6 == 64)
      then err (invalid_signature_length (length buf - pos6))
      else ok (record {
        peer_id = peer_id;
        proxy_url = proxy_url;
        expires_at = expires_at;
        issued_at = issued_at;
        signature = drop pos6 buf;
      })

pub decode : List ℕ → Result ProxyToken
unfolding decode_bytes
decode encoded = elim (base64_decode encoded) [
  | Base64.invalid at c ↦ err (base64_decode_error at c)
  | Base64.ok buf ↦ decode_bytes buf
]

-- The lengths are cut to a `u32`.
unfoldable pub signing_message : List ℕ → List ℕ → ℕ → ℕ → List ℕ
signing_message peer_id proxy_url expires_at issued_at =
    to_be_bytes 4 (length peer_id % 2 ^ 32)
    ++ (peer_id
        ++ (to_be_bytes 4 (length proxy_url % 2 ^ 32)
            ++ (proxy_url ++ (to_be_bytes 8 expires_at ++ to_be_bytes 8 issued_at))))

-- The Ed25519 crate: what is signed with a key is accepted with its public key, and a signature is
-- 64 bytes.
pub record Ed25519 (SigningKey VerifyingKey : Type 0) : Type 0 where
  pub sign_bytes : SigningKey → List ℕ → List ℕ
  pub accepts : VerifyingKey → List ℕ → List ℕ → Bool
  pub public : SigningKey → VerifyingKey
  pub length-sign_bytes :
      (key : SigningKey) (message : List ℕ) → length (sign_bytes key message) ≡ 64
  pub sign_bytes-IsBytes : (key : SigningKey) (message : List ℕ) → IsBytes (sign_bytes key message)
  pub accepts-sign_bytes :
      (key : SigningKey) (message : List ℕ)
      → accepts (public key) message (sign_bytes key message) ≡ true

unfoldable pub is_expired : ℕ → ProxyToken → Bool
is_expired now t = leb t.expires_at now

module _ {SigningKey VerifyingKey : Type 0} (scheme : Ed25519 SigningKey VerifyingKey) where
  pub sign : ℕ → List ℕ → List ℕ → SigningKey → ℕ → ProxyToken
  sign now peer_id proxy_url signing_key ttl_secs =
      let expires_at = min (now + ttl_secs) (u64_mod - 1) in
      record {
        peer_id = peer_id;
        proxy_url = proxy_url;
        expires_at = expires_at;
        issued_at = now;
        signature =
            scheme.sign_bytes signing_key (signing_message peer_id proxy_url expires_at now);
      }

  pub verify : VerifyingKey → ProxyToken → Bool
  verify key t =
      if not (length t.signature == 64)
      then false
      else scheme.accepts key (signing_message t.peer_id t.proxy_url t.expires_at t.issued_at)
          t.signature

  -- `TokenVerifier::verify`; `none` is `Ok(())`.
  pub check_token : ℕ → VerifyingKey → ProxyToken → Option ProxyTokenError
  unfolding is_expired verify
  check_token now key t =
      if is_expired now t
      then some (expired t.expires_at)
      else if not (verify key t)
      then some invalid_signature
      else none
