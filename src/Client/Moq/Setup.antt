-- ===== src/Client/Moq/Setup.antt =====
-- The two setup messages of crates/voip-client/src/moq.rs. A text is the list of its UTF-8 bytes;
-- reading bytes as a text is a parameter. Every reader takes what is left of the message and gives
-- what is left behind it.
pub mod RoundTrip
use three_pillars_voip.Base.{
  ℕ, zero, suc, ◌+◌, ◌*◌, ◌%◌, ◌^◌, ◌≡◌, Bool, true, false, not, Option, none, some, List, [], ◌∷◌,
  ◌++◌, length, ltb, leb, ◌==◌, if◌then◌else◌,
}
use three_pillars_voip.Base.Bytes.{take, drop}
use three_pillars_voip.Client.Moq.Varint.{encode_varint, decode_varint}

abbrev pub client_setup : ℕ
client_setup = 1

abbrev pub server_setup : ℕ
server_setup = 2

abbrev pub draft_17 : ℕ
draft_17 = 0xff000011

pub record ClientSetup : Type 0 where
  pub versions : List ℕ
  pub role : ℕ
  pub path : Option (List ℕ)

pub record ServerSetup : Type 0 where
  pub version : ℕ
  pub role : ℕ
  pub path : Option (List ℕ)

abbrev pub voip_default : ClientSetup
voip_default = record { versions = draft_17 ∷ []; role = 3; path = none }

abbrev pub encode_all : List ℕ → List ℕ
encode_all [] = []
encode_all (v ∷ vs) = encode_varint v ++ encode_all vs

abbrev pub encode_path : Option (List ℕ) → List ℕ
encode_path none = []
encode_path (some path) = encode_varint (length path) ++ path

unfoldable pub encode : ClientSetup → List ℕ
encode m =
    encode_varint client_setup
    ++ (encode_varint (length m.versions)
        ++ (encode_all m.versions ++ (encode_varint m.role ++ encode_path m.path)))

-- What `accept` answers.
unfoldable pub server_setup_bytes : List ℕ
server_setup_bytes = encode_varint server_setup ++ (encode_varint draft_17 ++ encode_varint 3)

-- `panics` is a vector of versions whose size overflows when it is allocated.
pub data Parsed (A : Type 0) : Type 0 where
  ok : A → Parsed A
  unexpected_type : (expected got : ℕ) → Parsed A
  panics : Parsed A

-- A value, and what is left.
unfoldable pub read : List ℕ → ℕ × List ℕ
read cursor = let (v, n) = decode_varint cursor in (v, drop n cursor)

unfoldable pub read_many : ℕ → List ℕ → List ℕ × List ℕ
read_many zero cursor = ([], cursor)
read_many (suc n) cursor =
    let (v, left) = read cursor in let (vs, left') = read_many n left in (v ∷ vs, left')

-- `Vec::with_capacity` of that many `u64`s: their bytes must not pass the largest `isize`.
abbrev pub fits : ℕ → Bool
fits n = ltb (n * 8) (2 ^ 63)

module _ (from_utf8_lossy : List ℕ → List ℕ) where
  -- The text of the announced length, if that much is left.
  unfoldable pub read_path : List ℕ → Option (List ℕ)
  read_path cursor =
      let (path_len, left) = read cursor in
      if length cursor == 0
      then none
      else if leb path_len (length left)
      then some (from_utf8_lossy (take path_len left))
      else none

  unfoldable pub decode_server_setup : List ℕ → Parsed ServerSetup
  decode_server_setup bytes =
      let (kind, c1) = read bytes in
      let (version, c2) = read c1 in
      let (role, c3) = read c2 in
      if not (kind == server_setup)
      then unexpected_type server_setup kind
      else ok (record { version = version; role = role % 256; path = read_path c3 })

  unfoldable pub parse_client_setup : List ℕ → Parsed ClientSetup
  parse_client_setup bytes =
      let (kind, c1) = read bytes in
      let (num_versions, c2) = read c1 in
      if not (kind == client_setup)
      then unexpected_type client_setup kind
      else if not (fits num_versions)
      then panics
      else let (versions, c3) = read_many num_versions c2 in
        let (role, c4) = read c3 in
        ok (record { versions = versions; role = role % 256; path = read_path c4 })
