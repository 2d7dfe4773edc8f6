-- ===== src/Tests/Media.antt =====
-- Variable-length integers and media datagrams.
use three_pillars_voip.Base.{◌%◌, ◌^◌, ◌≡◌, refl, [], ◌∷◌, arith}
use three_pillars_voip.Base.Bytes.{to_be_bytes}
use three_pillars_voip.Client.Moq.Varint.{encode_varint}
use three_pillars_voip.Client.Moq.Datagram.{new, encode, decode, ok, decode-encode}

written : encode_varint 300 ≡ 0x41 ∷ 0x2C ∷ []
unfolding encode_varint to_be_bytes
written = refl

decode-encode_example :
    decode (encode (new 5 70000 12 (1 ∷ 2 ∷ [])))
    ≡ ok (new 5 (70000 % 2 ^ 62) (12 % 2 ^ 62) (1 ∷ 2 ∷ []))
decode-encode_example =
    decode-encode 5 70000 12 (1 ∷ 2 ∷ []) (omega arith) (omega arith) (omega arith)
