-- ===== src/Client/Moq/Setup/RoundTrip.antt =====
-- Setup messages that are written and read (crates/voip-client/src/moq.rs).
use three_pillars_voip.Base.{
  ℕ, ◌+◌, ◌%◌, ◌^◌, ◌<◌, ◌≡◌, refl, Option, none, some, List, [], ◌∷◌, ◌++◌, length, arith,
  length-append, append_assoc,
}
use three_pillars_voip.Base.Bytes.{take, drop-append, length-to_be_bytes, to_be_bytes, from_be_onto}
use three_pillars_voip.Client.Moq.Varint.{encode_varint, decode_varint, tagged}
use three_pillars_voip.Client.Moq.Varint.RoundTrip.{decode_varint-encode_varint}
use three_pillars_voip.Client.Moq.Setup.{
  ClientSetup, ok, client_setup, draft_17, encode, encode_all, encode_path, server_setup_bytes,
  read, read_many, read_path, parse_client_setup, decode_server_setup,
}

-- Below 2^62 a value is read back, and what stands behind it is left.
pub read-encode_varint :
    (v : ℕ) (rest : List ℕ) → v < 2 ^ 62 → read (encode_varint v ++ rest) ≡ (v, rest)
unfolding read
read-encode_varint v rest h = ground (
  arith,
  decode_varint-encode_varint v rest (omega arith),
  drop-append (length (encode_varint v)) (encode_varint v) rest refl,
)

abbrev pub AllBelow : List ℕ → Type 0
AllBelow [] = Unit
AllBelow (v ∷ vs) = (v < 2 ^ 62) × AllBelow vs

read_many-encode_all :
    (vs rest : List ℕ) → AllBelow vs → read_many (length vs) (encode_all vs ++ rest) ≡ (vs, rest)
unfolding read_many
read_many-encode_all [] rest h = refl
read_many-encode_all (v ∷ vs) rest h =
    rw (append_assoc (encode_varint v) (encode_all vs) rest) (
      rw (read-encode_varint v (encode_all vs ++ rest) h.0) (rw (read_many-encode_all vs rest h.1)))

encode_varint_nonempty : (v : ℕ) → 0 < length (encode_varint v)
unfolding encode_varint
encode_varint_nonempty v = ground (
  arith,
  length-to_be_bytes 2 (0x4000 + v),
  length-to_be_bytes 4 (0x80000000 + v),
  length-to_be_bytes 8 (0xC000000000000000 + v % 2 ^ 62),
)

take_whole : (xs : List ℕ) → take (length xs) xs ≡ xs
take_whole [] = refl
take_whole (x ∷ xs) = rw (take_whole xs)

-- A path that fits its length and is UTF-8, which reading leaves as it is.
abbrev pub IsPath : (List ℕ → List ℕ) → Option (List ℕ) → Type 0
IsPath from_utf8_lossy none = Unit
IsPath from_utf8_lossy (some path) = (length path < 2 ^ 62) × (from_utf8_lossy path ≡ path)

module _ (from_utf8_lossy : List ℕ → List ℕ) where
  read_path-encode_path :
      (path : Option (List ℕ))
      → IsPath from_utf8_lossy path
      → read_path from_utf8_lossy (encode_path path) ≡ path
  unfolding read_path
  read_path-encode_path none h = refl
  read_path-encode_path (some path) h = ground (
    arith,
    read-encode_varint (length path) path h.0,
    encode_varint_nonempty (length path),
    length-append (encode_varint (length path)) path,
    take_whole path,
    h.1,
  )

  -- A CLIENT_SETUP message is read back as it was written: with fewer than 2^60 versions, each
  -- below 2^62, a role of one byte, and no path or one of fewer than 2^62 bytes that
  -- `from_utf8_lossy` leaves as it is.
  pub parse_client_setup-encode :
      (m : ClientSetup)
      → length m.versions < 2 ^ 60
      → AllBelow m.versions
      → m.role < 256
      → IsPath from_utf8_lossy m.path
      → parse_client_setup from_utf8_lossy (encode m) ≡ ok m
  unfolding parse_client_setup encode
  parse_client_setup-encode m hl hv hr hp =
      let tail : List ℕ = encode_varint m.role ++ encode_path m.path in
      let versions : List ℕ = encode_all m.versions ++ tail in
      ground (
        arith,
        read-encode_varint client_setup (encode_varint (length m.versions) ++ versions),
        read-encode_varint (length m.versions) versions,
        read_many-encode_all m.versions tail hv,
        read-encode_varint m.role (encode_path m.path),
        read_path-encode_path m.path hp,
      )

  -- The SERVER_SETUP message that a session answers with is read as draft 17 with both roles.
  pub decode_server_setup_bytes :
      decode_server_setup from_utf8_lossy server_setup_bytes
      ≡ ok (record { version = draft_17; role = 3; path = none })
  unfolding decode_server_setup server_setup_bytes read_path read encode_varint decode_varint tagged
      to_be_bytes from_be_onto
  decode_server_setup_bytes = refl
