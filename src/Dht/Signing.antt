-- ===== src/Dht/Signing.antt =====
-- Signing and verifying records, crates/voip-dht/src/record.rs. The Ed25519 crate, which reads a
-- signature from exactly 64 bytes, and the generated code are interfaces.
pub mod Verified
use three_pillars_voip.Base.{
  ℕ, ◌≡◌, Bool, true, false, not, Option, none, some, List, [], ◌∷◌, length, ◌==◌, if◌then◌else◌,
  String,
}
use three_pillars_voip.Client.Proxy.Token.{Ed25519}
use three_pillars_voip.Dht.Record.{
  Numbers, PeerRecord, ProxyRecord, ProtoPeerRecord, ProtoProxyRecord, to_proto_with_empty_sig,
  to_proto, from_proto, proxy_to_proto_with_empty_sig, proxy_to_proto, proxy_from_proto,
}

-- What prost generates for the two messages: reading gives back what was written.
pub record Prost : Type 0 where
  pub encode_peer : ProtoPeerRecord → List ℕ
  pub decode_peer : List ℕ → Option ProtoPeerRecord
  pub encode_proxy : ProtoProxyRecord → List ℕ
  pub decode_proxy : List ℕ → Option ProtoProxyRecord
  pub decode_peer-encode_peer : (m : ProtoPeerRecord) → decode_peer (encode_peer m) ≡ some m
  pub decode_proxy-encode_proxy : (m : ProtoProxyRecord) → decode_proxy (encode_proxy m) ≡ some m

-- The errors of a verification: the key of the record, or what is not a signature at all.
pub data SignatureError : Type 0 where
  invalid_signature : String → SignatureError
  invalid_signature_legacy : String → SignatureError

pub data Checked : Type 0 where
  checked : Bool → Checked
  refused : SignatureError → Checked

module _ {SigningKey VerifyingKey : Type 0} (scheme : Ed25519 SigningKey VerifyingKey) where
  -- `Signature::try_from` and `verify`.
  unfoldable pub check_signature :
      String → String → VerifyingKey → List ℕ → List ℕ → Option SignatureError
  check_signature key kind verifying_key message signature =
      if length signature == 0
      then some (invalid_signature key)
      else if not (length signature == 64)
      then some (invalid_signature_legacy kind)
      else if scheme.accepts verifying_key message signature
      then none
      else some (invalid_signature key)

  -- The same as a truth value, where the signature can be read.
  unfoldable pub check_message : String → String → VerifyingKey → List ℕ → List ℕ → Checked
  check_message key kind verifying_key message signature =
      if length signature == 0
      then refused (invalid_signature key)
      else if not (length signature == 64)
      then refused (invalid_signature_legacy kind)
      else checked (scheme.accepts verifying_key message signature)

module _ {SigningKey VerifyingKey : Type 0} (scheme : Ed25519 SigningKey VerifyingKey)
    (prost : Prost) (numbers : Numbers) where
  unfoldable pub signing_input : PeerRecord → List ℕ
  signing_input r = prost.encode_peer (to_proto_with_empty_sig numbers r)

  unfoldable pub sign : SigningKey → PeerRecord → PeerRecord
  sign key r = record r { signature = scheme.sign_bytes key (signing_input r) }

  -- `none` is `Ok(())`.
  unfoldable pub verify : VerifyingKey → PeerRecord → Option SignatureError
  verify key r = check_signature scheme r.peer_id "PeerRecord" key (signing_input r) r.signature

  unfoldable pub encode : PeerRecord → List ℕ
  encode r = prost.encode_peer (to_proto numbers r)

  unfoldable pub decode : List ℕ → Option PeerRecord
  decode bytes = elim (prost.decode_peer bytes) [
    | none ↦ none
    | some p ↦ some (from_proto numbers p)
  ]

  unfoldable pub sign_peer_record : SigningKey → ProtoPeerRecord → ProtoPeerRecord
  sign_peer_record key p = record p {
    signature = scheme.sign_bytes key (prost.encode_peer (record p { signature = [] }));
  }

  unfoldable pub verify_peer_record : VerifyingKey → ProtoPeerRecord → Checked
  verify_peer_record key p =
      check_message scheme p.peer_id "PeerRecord" key
        (prost.encode_peer (record p { signature = [] })) p.signature

  unfoldable pub proxy_signing_input : ProxyRecord → List ℕ
  proxy_signing_input r = prost.encode_proxy (proxy_to_proto_with_empty_sig r)

  unfoldable pub proxy_sign : SigningKey → ProxyRecord → ProxyRecord
  proxy_sign key r = record r { signature = scheme.sign_bytes key (proxy_signing_input r) }

  unfoldable pub proxy_verify : VerifyingKey → ProxyRecord → Option SignatureError
  proxy_verify key r =
      check_signature scheme "ProxyRecord" "ProxyRecord" key (proxy_signing_input r) r.signature

  unfoldable pub proxy_encode : ProxyRecord → List ℕ
  proxy_encode r = prost.encode_proxy (proxy_to_proto r)

  unfoldable pub proxy_decode : List ℕ → Option ProxyRecord
  proxy_decode bytes = elim (prost.decode_proxy bytes) [
    | none ↦ none
    | some p ↦ some (proxy_from_proto p)
  ]

  unfoldable pub sign_proxy_record : SigningKey → ProtoProxyRecord → ProtoProxyRecord
  sign_proxy_record key p = record p {
    signature = scheme.sign_bytes key (prost.encode_proxy (record p { signature = [] }));
  }

  unfoldable pub verify_proxy_record : VerifyingKey → ProtoProxyRecord → Checked
  verify_proxy_record key p =
      check_message scheme p.node_id "ProxyRecord" key
        (prost.encode_proxy (record p { signature = [] })) p.signature
