-- ===== src/Client/Proxy/Base64/RoundTrip.antt =====
-- What `base64_encode` of crates/voip-client/src/proxy.rs writes, `base64_decode` reads.
use three_pillars_voip.Base.{
  ℕ, zero, suc, ◌+◌, ◌-◌, ◌*◌, ◌/◌, ◌%◌, ◌^◌, ◌<◌, ◌≡◌, ◌≢◌, refl, Bool, true, false, ◌&&◌, none,
  some, List, [], ◌∷◌, not, leb, ◌==◌, arith, u32_mod,
}
use three_pillars_voip.Base.Bytes.{IsBytes}
use three_pillars_voip.Client.Proxy.Base64.{
  charset, position, pad, char_of, base64_encode, trim_end, ok, push, decode_chars, base64_decode,
}

-- The six bits v are read back from their character, which is not the padding.
is_read : ℕ → Bool
is_read v = elim (position (char_of v) charset) [
  | none ↦ false
  | some w ↦ (w == v) && not (char_of v == pad)
]

all_read : ℕ → Bool
all_read zero = true
all_read (suc n) = is_read n && all_read n

all_read_lem : all_read 64 ≡ true
unfolding all_read is_read position char_of charset
all_read_lem = refl

all_read-below : (n v : ℕ) → all_read n ≡ true → v < n → is_read v ≡ true
unfolding all_read
all_read-below zero v e h = absurd (omega arith)
all_read-below (suc n) v e h = ground (arith, all_read-below n v)

pub position-char_of :
    (v : ℕ) → v < 64 → (position (char_of v) charset ≡ some v) × (char_of v ≢ pad)
unfolding is_read
position-char_of v h = let e = all_read-below 64 v all_read_lem h in ground arith

pub trim_end-char_of :
    (v : ℕ) (cs : List ℕ) → v < 64 → trim_end (char_of v ∷ cs) ≡ char_of v ∷ trim_end cs
unfolding trim_end
trim_end-char_of v cs h = ground (arith, position-char_of v h)

abbrev shifted : ℕ → ℕ → ℕ
shifted buffer v = (buffer * 64 + v) % u32_mod

-- The first character of four only fills the buffer; each of the others completes a byte.
decode_first :
    (i buffer v : ℕ) (cs : List ℕ)
    → v < 64
    → decode_chars i buffer 0 (char_of v ∷ cs) ≡ decode_chars (i + 1) (shifted buffer v) 6 cs
unfolding decode_chars
decode_first i buffer v cs h = rw ((position-char_of v h).0, decode_chars)

decode_next :
    (i buffer bits v : ℕ) (cs : List ℕ)
    → v < 64
    → leb 8 (bits + 6) ≡ true
    → decode_chars i buffer bits (char_of v ∷ cs)
      ≡ push
          (shifted buffer v / 2 ^ (bits + 6 - 8) % 256)
          (decode_chars (i + 1) (shifted buffer v) (bits + 6 - 8) cs)
unfolding decode_chars
decode_next i buffer bits v cs h k = rw ((position-char_of v h).0, decode_chars) (rw k)

-- Four characters give three bytes, whatever the buffer held before.
decode_four :
    (i buffer v w x y : ℕ) (cs : List ℕ)
    → v < 64
    → w < 64
    → x < 64
    → y < 64
    → (buffer' : ℕ) × (decode_chars i buffer 0 (char_of v ∷ char_of w ∷ char_of x ∷ char_of y ∷ cs)
        ≡ push (v * 4 + w / 16) (
            push
              (w % 16 * 16 + x / 4)
              (push (x % 4 * 64 + y) (decode_chars (i + 1 + 1 + 1 + 1) buffer' 0 cs))))
decode_four i buffer v w x y cs hv hw hx hy =
    let a = shifted buffer v in
    let b = shifted a w in
    let c = shifted b x in
    let d = shifted c y in
    let first : b / 2 ^ 4 % 256 ≡ v * 4 + w / 16 = omega arith in
    let second : c / 2 ^ 2 % 256 ≡ w % 16 * 16 + x / 4 = omega arith in
    let third : d / 2 ^ 0 % 256 ≡ x % 4 * 64 + y = omega arith in
    let e0 = decode_first i buffer v (char_of w ∷ char_of x ∷ char_of y ∷ cs) hv in
    let e1 = decode_next (i + 1) a 6 w (char_of x ∷ char_of y ∷ cs) hw refl in
    let e2 = decode_next (i + 1 + 1) b 4 x (char_of y ∷ cs) hx refl in
    let e3 = decode_next (i + 1 + 1 + 1) c 2 y cs hy refl in
    (d, cc (e0, e1, e2, e3, first, second, third))

char_of-read :
    (i buffer v w : ℕ)
    → v < 64
    → w < 64
    → decode_chars i buffer 0 (char_of v ∷ char_of w ∷ []) ≡ ok ((v * 4 + w / 16) ∷ [])
char_of-read i buffer v w hv hw =
    let a = shifted buffer v in
    let first : shifted a w / 2 ^ 4 % 256 ≡ v * 4 + w / 16 = omega arith in
    let e0 = decode_first i buffer v (char_of w ∷ []) hv in
    let e1 = decode_next (i + 1) a 6 w [] hw refl in
    let e2 : decode_chars (i + 1 + 1) (shifted a w) 4 [] ≡ ok [] = (unfold decode_chars in refl) in
    cc (e0, e1, e2, first)

char_of-read_two :
    (i buffer v w x : ℕ)
    → v < 64
    → w < 64
    → x < 64
    → decode_chars i buffer 0 (char_of v ∷ char_of w ∷ char_of x ∷ [])
      ≡ ok ((v * 4 + w / 16) ∷ (w % 16 * 16 + x / 4) ∷ [])
char_of-read_two i buffer v w x hv hw hx =
    let a = shifted buffer v in
    let b = shifted a w in
    let first : b / 2 ^ 4 % 256 ≡ v * 4 + w / 16 = omega arith in
    let second : shifted b x / 2 ^ 2 % 256 ≡ w % 16 * 16 + x / 4 = omega arith in
    let e0 = decode_first i buffer v (char_of w ∷ char_of x ∷ []) hv in
    let e1 = decode_next (i + 1) a 6 w (char_of x ∷ []) hw refl in
    let e2 = decode_next (i + 1 + 1) b 4 x [] hx refl in
    let e3 : decode_chars (i + 1 + 1 + 1) (shifted b x) 2 [] ≡ ok [] =
      (unfold decode_chars in refl) in
    cc (e0, e1, e2, e3, first, second)

decode-encode_from :
    (i buffer : ℕ) (bytes : List ℕ)
    → IsBytes bytes
    → decode_chars i buffer 0 (trim_end (base64_encode bytes)) ≡ ok bytes
unfolding base64_encode
decode-encode_from i buffer [] h = unfold trim_end decode_chars in refl
decode-encode_from i buffer (b0 ∷ []) h =
    let t = b0 * 65536 in
    let e0 =
      trim_end-char_of (t / 262144 % 64) (char_of (t / 4096 % 64) ∷ pad ∷ pad ∷ []) (omega arith) in
    let e1 = trim_end-char_of (t / 4096 % 64) (pad ∷ pad ∷ []) (omega arith) in
    let e2 : trim_end (pad ∷ pad ∷ []) ≡ [] = (unfold trim_end in refl) in
    let r = char_of-read i buffer (t / 262144 % 64) (t / 4096 % 64) (omega arith) (omega arith) in
    let v : t / 262144 % 64 * 4 + t / 4096 % 64 / 16 ≡ b0 = omega arith in cc (e0, e1, e2, r, v)
decode-encode_from i buffer (b0 ∷ b1 ∷ []) h =
    let t = b0 * 65536 + b1 * 256 in
    let e0 =
      trim_end-char_of (t / 262144 % 64)
        (char_of (t / 4096 % 64) ∷ char_of (t / 64 % 64) ∷ pad ∷ []) (omega arith) in
    let e1 = trim_end-char_of (t / 4096 % 64) (char_of (t / 64 % 64) ∷ pad ∷ []) (omega arith) in
    let e2 = trim_end-char_of (t / 64 % 64) (pad ∷ []) (omega arith) in
    let e3 : trim_end (pad ∷ []) ≡ [] = (unfold trim_end in refl) in
    let r =
      char_of-read_two i buffer (t / 262144 % 64) (t / 4096 % 64) (t / 64 % 64) (omega arith)
        (omega arith) (omega arith) in
    let v : t / 262144 % 64 * 4 + t / 4096 % 64 / 16 ≡ b0 = omega arith in
    let w : t / 4096 % 64 % 16 * 16 + t / 64 % 64 / 4 ≡ b1 = omega arith in
    cc (e0, e1, e2, e3, r, v, w)
decode-encode_from i buffer (b0 ∷ b1 ∷ b2 ∷ rest) h =
    let t = b0 * 65536 + b1 * 256 + b2 in
    let cs : List ℕ = base64_encode rest in
    let e0 =
      trim_end-char_of (t / 262144 % 64)
        (char_of (t / 4096 % 64) ∷ char_of (t / 64 % 64) ∷ char_of (t % 64) ∷ cs) (omega arith) in
    let e1 =
      trim_end-char_of (t / 4096 % 64) (char_of (t / 64 % 64) ∷ char_of (t % 64) ∷ cs)
        (omega arith) in
    let e2 = trim_end-char_of (t / 64 % 64) (char_of (t % 64) ∷ cs) (omega arith) in
    let e3 = trim_end-char_of (t % 64) cs (omega arith) in
    let (buffer', r) =
      decode_four i buffer (t / 262144 % 64) (t / 4096 % 64) (t / 64 % 64) (t % 64) (trim_end cs)
        (omega arith) (omega arith) (omega arith) (omega arith) in
    let ih = decode-encode_from (i + 1 + 1 + 1 + 1) buffer' rest h.1.1.1 in
    let v : t / 262144 % 64 * 4 + t / 4096 % 64 / 16 ≡ b0 = omega arith in
    let w : t / 4096 % 64 % 16 * 16 + t / 64 % 64 / 4 ≡ b1 = omega arith in
    let x : t / 64 % 64 % 4 * 64 + t % 64 ≡ b2 = omega arith in cc (e0, e1, e2, e3, r, ih, v, w, x)

-- Any bytes come back from their base64 text.
pub base64_decode-base64_encode :
    (bytes : List ℕ) → IsBytes bytes → base64_decode (base64_encode bytes) ≡ ok bytes
unfolding base64_decode
base64_decode-base64_encode bytes h = decode-encode_from 0 0 bytes h
