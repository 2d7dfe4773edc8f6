-- ===== src/Dht/Signing/Verified.antt =====
-- What a verified record stands for (crates/voip-dht/src/record.rs).
use three_pillars_voip.Base.{ℕ, ◌≡◌, ◌↔◌, true, none, some, List, String, arith}
use three_pillars_voip.Client.Proxy.Token.{Ed25519}
use three_pillars_voip.Dht.Record.{
  Numbers, PeerRecord, ProxyRecord, to_proto_with_empty_sig, to_proto,
  proxy_to_proto_with_empty_sig, proxy_to_proto,
}
use three_pillars_voip.Dht.Record.RoundTrip.{record-round_trip, proxy-round_trip}
use three_pillars_voip.Dht.Signing.{
  Prost, checked, check_signature, check_message, signing_input, sign, verify, encode, decode,
  verify_peer_record, proxy_signing_input, proxy_sign, proxy_verify, proxy_encode, proxy_decode,
}

module _ {SigningKey VerifyingKey : Type 0} (scheme : Ed25519 SigningKey VerifyingKey) where
  check_signature-none_iff :
      (key kind : String) (k : VerifyingKey) (message signature : List ℕ)
      → (check_signature scheme key kind k message signature ≡ none)
        ↔ (check_message scheme key kind k message signature ≡ checked true)
  unfolding check_signature check_message
  check_signature-none_iff key kind k message signature = (λ h. ground arith, λ h. ground arith)

module _ {SigningKey VerifyingKey : Type 0} (scheme : Ed25519 SigningKey VerifyingKey)
    (prost : Prost) (numbers : Numbers) where
  -- The two ways to verify a peer record agree: the method accepts a record exactly when the function on
  -- messages answers true for its message, with any key.
  pub verify_peer_record-to_proto_iff :
      (k : VerifyingKey) (r : PeerRecord)
      → (verify scheme prost numbers k r ≡ none)
        ↔ (verify_peer_record scheme prost numbers k (to_proto numbers r) ≡ checked true)
  unfolding verify verify_peer_record signing_input to_proto to_proto_with_empty_sig
  verify_peer_record-to_proto_iff k r = check_signature-none_iff scheme r.peer_id "PeerRecord" k _ _

  verify-sign :
      (key : SigningKey) (r : PeerRecord)
      → verify scheme prost numbers (scheme.public key) (sign scheme prost numbers key r) ≡ none
  unfolding verify sign signing_input to_proto_with_empty_sig check_signature
  verify-sign key r = ground (
    arith,
    scheme.length-sign_bytes key (prost.encode_peer (to_proto_with_empty_sig numbers r)),
    scheme.accepts-sign_bytes key (prost.encode_peer (to_proto_with_empty_sig numbers r)),
  )

  -- A peer record that is signed, encoded and decoded is the signed record, and verifies with the signer's
  -- public key.
  pub verify-decode-encode-sign :
      (key : SigningKey) (r : PeerRecord)
      → let r' = sign scheme prost numbers key r in
        (decode scheme prost numbers (encode scheme prost numbers r') ≡ some r')
        × (verify scheme prost numbers (scheme.public key) r' ≡ none)
  unfolding decode encode
  verify-decode-encode-sign key r =
      let r' = sign scheme prost numbers key r in
      (
        ground (
          arith,
          prost.decode_peer-encode_peer (to_proto numbers r'),
          record-round_trip numbers r',
        ),
        verify-sign key r,
      )

  -- A proxy record that is signed, encoded and decoded is the signed record, and verifies with the
  -- signer's public key.
  pub proxy_verify-decode-encode-sign :
      (key : SigningKey) (r : ProxyRecord)
      → let r' = proxy_sign scheme prost numbers key r in
        (proxy_decode scheme prost numbers (proxy_encode scheme prost numbers r') ≡ some r')
        × (proxy_verify scheme prost numbers (scheme.public key) r' ≡ none)
  unfolding proxy_decode proxy_encode proxy_verify proxy_sign proxy_signing_input
      proxy_to_proto_with_empty_sig check_signature
  proxy_verify-decode-encode-sign key r =
      let r' = proxy_sign scheme prost numbers key r in
      let m = prost.encode_proxy (proxy_to_proto_with_empty_sig r) in
      (
        ground (arith, prost.decode_proxy-encode_proxy (proxy_to_proto r'), proxy-round_trip r'),
        ground (arith, scheme.length-sign_bytes key m, scheme.accepts-sign_bytes key m),
      )
