-- ===== src/Dht/Username.antt =====
-- `UsernameRecord` and the keys of records, crates/voip-dht/src/record.rs. SHA-256 and the bytes of a
-- text are parameters; JSON is that of a third-party crate.
use Prim.Native.String.{◌++◌}
use text.Mathlib.TextLemmas.{append_assoc}
use three_pillars_voip.Base.{ℕ, ◌≡◌, sym, ap, ◌∙◌, none, Option, List, [], String, arith}
use three_pillars_voip.Client.Proxy.Token.{Ed25519}
use three_pillars_voip.Dht.Signing.{SignatureError, Checked, check_signature, check_message}

pub record UsernameRecord : Type 0 where
  pub username : String
  pub peer_id : String
  pub signature : List ℕ

module _ (sha256 : List ℕ → List ℕ) (as_bytes : String → List ℕ) where
  pub peer_record_key : String → List ℕ
  peer_record_key peer_id = sha256 (as_bytes ("voip:" ++ peer_id))

  pub username_record_key : String → List ℕ
  username_record_key username = sha256 (as_bytes ("voip-name:" ++ username))

  pub proxy_record_key : String → List ℕ
  proxy_record_key node_id = sha256 (as_bytes ("masque-proxy:" ++ node_id))

unfoldable pub username_signing_input : String → String → String
username_signing_input username peer_id = username ++ (":" ++ peer_id)

module _ {SigningKey VerifyingKey : Type 0} (scheme : Ed25519 SigningKey VerifyingKey)
    (as_bytes : String → List ℕ) where
  abbrev pub new_unsigned : String → String → UsernameRecord
  new_unsigned username peer_id = record { username = username; peer_id = peer_id; signature = [] }

  unfoldable pub sign : SigningKey → UsernameRecord → UsernameRecord
  sign key r = record r {
    signature = scheme.sign_bytes key (as_bytes (username_signing_input r.username r.peer_id));
  }

  unfoldable pub verify : VerifyingKey → UsernameRecord → Option SignatureError
  verify key r =
      check_signature scheme "UsernameRecord" "UsernameRecord" key
        (as_bytes (username_signing_input r.username r.peer_id)) r.signature

  unfoldable pub verify_username_record : UsernameRecord → VerifyingKey → Checked
  verify_username_record r key =
      check_message scheme "UsernameRecord" "UsernameRecord" key
        (as_bytes (username_signing_input r.username r.peer_id)) r.signature

  moved_colon :
      (name extra peer_id : String)
      → username_signing_input name (extra ++ (":" ++ peer_id))
        ≡ username_signing_input (name ++ (":" ++ extra)) peer_id
  unfolding username_signing_input
  moved_colon name extra peer_id = sym (
      append_assoc name (":" ++ extra) (":" ++ peer_id)
      ∙ ap (λ t. name ++ t) (append_assoc ":" extra (":" ++ peer_id)))

  verify_signed :
      (key : SigningKey) (name peer_id : String)
      → verify (scheme.public key) (record {
        username = name;
        peer_id = peer_id;
        signature = scheme.sign_bytes key (as_bytes (username_signing_input name peer_id));
      })
        ≡ none
  unfolding verify check_signature
  verify_signed key name peer_id =
      let m = as_bytes (username_signing_input name peer_id) in
      ground (arith, scheme.length-sign_bytes key m, scheme.accepts-sign_bytes key m)

  -- The colon between the username and the peer id can be moved: a signature made for a username that
  -- holds a colon also verifies for the username before that colon, with the rest put before the peer id.
  pub verify_ambiguous :
      (key : SigningKey) (name extra peer_id : String)
      → let r = sign key (new_unsigned (name ++ (":" ++ extra)) peer_id) in
        (verify (scheme.public key) r ≡ none)
        × (verify (scheme.public key) (record {
          username = name;
          peer_id = extra ++ (":" ++ peer_id);
          signature = r.signature;
        })
            ≡ none)
  unfolding sign
  verify_ambiguous key name extra peer_id = (
    verify_signed key (name ++ (":" ++ extra)) peer_id,
    rw (← moved_colon name extra peer_id) (verify_signed key name (extra ++ (":" ++ peer_id))),
  )
