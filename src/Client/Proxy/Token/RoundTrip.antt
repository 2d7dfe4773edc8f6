-- ===== src/Client/Proxy/Token/RoundTrip.antt =====
-- What `encode` of crates/voip-client/src/proxy.rs writes of a token, `decode` reads.
use three_pillars_voip.Base.{
  ℕ, ◌-◌, ◌%◌, ◌^◌, ◌<◌, ◌≡◌, refl, sym, ap, ◌∙◌, true, List, ◌++◌, length, arith,
}
use three_pillars_voip.Base.Bytes.{IsBytes, IsBytes-append, to_be_bytes-IsBytes, to_be_bytes}
use three_pillars_voip.Client.Proxy.Base64.RoundTrip.{base64_decode-base64_encode}
use three_pillars_voip.Client.Proxy.Token.{
  ProxyToken, ok, is_utf8, token_bytes, encode, decode_bytes, decode,
}
use three_pillars_voip.Client.Proxy.Token.Reading.{
  At, length-drop, read_u16_be_lem, read_u64_be_lem, read_string_lem,
}

-- A token that its bytes can hold.
pub record IsValid (t : ProxyToken) : Type 0 where
  pub peer_id_utf8 : is_utf8 t.peer_id ≡ true
  pub proxy_url_utf8 : is_utf8 t.proxy_url ≡ true
  pub peer_id_fits : length t.peer_id < 65536
  pub proxy_url_fits : length t.proxy_url < 65536
  pub expires_at_fits : t.expires_at < 2 ^ 64
  pub issued_at_fits : t.issued_at < 2 ^ 64
  pub peer_id_bytes : IsBytes t.peer_id
  pub proxy_url_bytes : IsBytes t.proxy_url
  pub signature_bytes : IsBytes t.signature
  pub signature_length : length t.signature ≡ 64

-- The bytes where no length is cut.
abbrev parts : ProxyToken → List ℕ
parts t =
    to_be_bytes 2 (length t.peer_id)
    ++ (t.peer_id
        ++ (to_be_bytes 2 (length t.proxy_url)
            ++ (t.proxy_url
                ++ (to_be_bytes 8 t.expires_at ++ (to_be_bytes 8 t.issued_at ++ t.signature)))))

token_bytes_lem : (t : ProxyToken) → IsValid t → token_bytes t ≡ parts t
unfolding token_bytes
token_bytes_lem t v =
    let p : length t.peer_id % 65536 ≡ length t.peer_id = omega (arith, v.peer_id_fits) in
    let q : length t.proxy_url % 65536 ≡ length t.proxy_url = omega (arith, v.proxy_url_fits) in
    rw (p, q) refl

decode_bytes-token_bytes : (t : ProxyToken) → IsValid t → decode_bytes (token_bytes t) ≡ ok t
unfolding decode_bytes
decode_bytes-token_bytes t v =
    let buf : List ℕ = token_bytes t in
    let whole : At buf 0 (parts t) = (token_bytes_lem t v, omega arith) in
    let (e1, a1) = read_u16_be_lem buf 0 (length t.peer_id) _ v.peer_id_fits whole in
    let (e2, a2) = read_string_lem buf _ t.peer_id _ v.peer_id_utf8 a1 in
    let (e3, a3) = read_u16_be_lem buf _ (length t.proxy_url) _ v.proxy_url_fits a2 in
    let (e4, a4) = read_string_lem buf _ t.proxy_url _ v.proxy_url_utf8 a3 in
    let (e5, a5) = read_u64_be_lem buf _ t.expires_at _ v.expires_at_fits a4 in
    let (e6, a6) = read_u64_be_lem buf _ t.issued_at t.signature v.issued_at_fits a5 in
    let n : length buf - _ ≡ 64 = sym (length-drop _ buf) ∙ (ap length a6.0 ∙ v.signature_length) in
    rw (e1, decode_bytes) (rw e2 (rw e3 (rw e4 (rw e5 (rw e6 (rw n (rw a6.0)))))))

token_bytes-IsBytes : (t : ProxyToken) → IsValid t → IsBytes (token_bytes t)
unfolding token_bytes
token_bytes-IsBytes t v = IsBytes-append (to_be_bytes 2 _) _ (to_be_bytes-IsBytes 2 _) (
    IsBytes-append t.peer_id _ v.peer_id_bytes (
      IsBytes-append (to_be_bytes 2 _) _ (to_be_bytes-IsBytes 2 _) (
        IsBytes-append t.proxy_url _ v.proxy_url_bytes (
          IsBytes-append (to_be_bytes 8 t.expires_at) _ (to_be_bytes-IsBytes 8 t.expires_at) (
            IsBytes-append (to_be_bytes 8 t.issued_at) _ (to_be_bytes-IsBytes 8 t.issued_at)
              v.signature_bytes)))))

-- A token comes back from its base64 text, if its texts are UTF-8 of fewer than 65536 bytes, its
-- times are `u64`s and its signature is 64 bytes.
pub token-round_trip : (t : ProxyToken) → IsValid t → decode (encode t) ≡ ok t
unfolding decode encode
token-round_trip t v =
    rw (base64_decode-base64_encode (token_bytes t) (token_bytes-IsBytes t v), decode)
      (decode_bytes-token_bytes t v)
