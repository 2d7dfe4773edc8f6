-- ===== src/Client/NatProbe/Response/Fields.antt =====
-- What the answer to a path probe says, `parse_path_probe_response` of
-- crates/voip-client/src/nat_probe.rs: the format of protocol buffers, and what is read of it.
use three_pillars_voip.Base.{
  ℕ, zero, suc, ◌+◌, ◌-◌, ◌*◌, ◌/◌, ◌%◌, ◌^◌, ◌<◌, ◌≤◌, ◌≡◌, refl, ap, ◌∙◌, sym, List, [], ◌∷◌,
  ◌++◌, length, length-append, append_assoc, ◌==◌, if◌then◌else◌, u32_mod, u64_mod, arith, String,
}
use three_pillars_voip.Base.Bytes.{take, drop, take-append, drop-append}
use three_pillars_voip.Client.NatProbe.Response.{
  decode_varint, Next, continue, stop, skip_varint, skip_length, read_ip, field, step,
}
use three_pillars_voip.Client.NatProbe.Response.Varint.{leb128, varint, decode_varint-varint}

-- A field on the wire.
pub data Field : Type 0 where
  varint_field : (number value : ℕ) → Field
  delimited : (number : ℕ) → (payload : List ℕ) → Field
  fixed64 fixed32 : (number : ℕ) → (payload : List ℕ) → Field

abbrev pub key : ℕ → ℕ → List ℕ
key number wire_type = varint (number * 8 + wire_type)

unfoldable pub encode_field : Field → List ℕ
encode_field (varint_field n value) = key n 0 ++ varint value
encode_field (delimited n payload) = key n 2 ++ (varint (length payload) ++ payload)
encode_field (fixed64 n payload) = key n 1 ++ payload
encode_field (fixed32 n payload) = key n 5 ++ payload

abbrev pub IsField : Field → Type 0
IsField (varint_field n value) = (n < 2 ^ 29) × (value < u64_mod)
IsField (delimited n payload) = n < 2 ^ 29
IsField (fixed64 n payload) = (n < 2 ^ 29) × (length payload ≡ 8)
IsField (fixed32 n payload) = (n < 2 ^ 29) × (length payload ≡ 4)

unfoldable pub encode_fields : List Field → List ℕ
encode_fields [] = []
encode_fields (f ∷ fs) = encode_field f ++ encode_fields fs

-- What comes after the fields that are read: nothing, or the key of a field of a wire type that is
-- not understood, with any bytes after it.
pub data Ending : Type 0 where
  whole : Ending
  cut : (number wire_type : ℕ) → (rest : List ℕ) → Ending

unfoldable pub encode_ending : Ending → List ℕ
encode_ending whole = []
encode_ending (cut n wire_type rest) = key n wire_type ++ rest

abbrev pub IsEnding : Ending → Type 0
IsEnding whole = Unit {0}
IsEnding (cut n wire_type rest) =
    (n < 2 ^ 29) × (2 < wire_type) × (wire_type < 8) × ¬ (wire_type ≡ 5)

abbrev pub AreFields : List Field → Type 0
AreFields [] = Unit {0}
AreFields (f ∷ fs) = IsField f × AreFields fs

drop_nothing : (n : ℕ) → drop {A = ℕ} n [] ≡ []
drop_nothing zero = refl
drop_nothing (suc n) = refl

drop-drop : (m n : ℕ) (bytes : List ℕ) → drop n (drop m bytes) ≡ drop (m + n) bytes
drop-drop zero n bytes = ap (λ k. drop k bytes) (omega arith)
drop-drop (suc m) n [] = drop_nothing n ∙ sym (drop_nothing (suc m + n))
drop-drop (suc m) n (b ∷ bytes) =
    let e : suc (m + n) ≡ suc m + n = omega arith in
    drop-drop m n bytes ∙ ap (λ k. drop k (b ∷ bytes)) e

pub length-drop :
    (m : ℕ) (bytes : List ℕ) → m ≤ length bytes → m + length (drop m bytes) ≡ length bytes
length-drop zero bytes h = omega arith
length-drop (suc m) [] h = absurd (omega arith)
length-drop (suc m) (b ∷ bytes) h = omega (arith, length-drop m bytes (omega arith))

-- Past what stands at a position.
pub past :
    (bytes front rest : List ℕ) (pos : ℕ)
    → drop pos bytes ≡ front ++ rest
    → drop (pos + length front) bytes ≡ rest
past bytes front rest pos e =
    sym (drop-drop pos (length front) bytes)
    ∙ (ap (drop (length front)) e ∙ drop-append (length front) front rest refl)

varint_at :
    (bytes rest : List ℕ) (pos n : ℕ)
    → n < u64_mod
    → drop pos bytes ≡ varint n ++ rest
    → decode_varint (drop pos bytes) ≡ (n, length (varint n))
varint_at bytes rest pos n h e = ap decode_varint e ∙ decode_varint-varint n rest h

pub length-past :
    (bytes front rest : List ℕ) (pos : ℕ)
    → pos ≤ length bytes
    → drop pos bytes ≡ front ++ rest
    → pos + length front + length rest ≡ length bytes
length-past bytes front rest pos l e =
    omega (arith, length-drop pos bytes l, ap length e, length-append front rest)

varint-some : (n : ℕ) → 1 ≤ length (varint n)
unfolding leb128
varint-some n = ground arith

skip_length-delimited :
    (bytes payload rest : List ℕ) (pos : ℕ)
    → drop pos bytes ≡ varint (length payload) ++ (payload ++ rest)
    → pos ≤ length bytes
    → length bytes < 2 ^ 63
    → (skip_length bytes pos ≡ pos + length (varint (length payload)) + length payload)
      × (pos + length (varint (length payload)) + length payload ≤ length bytes)
unfolding skip_length
skip_length-delimited bytes payload rest pos e l b =
    let size = varint (length payload) in
    let long = length-past bytes size (payload ++ rest) pos l e in
    let f = length-append payload rest in
    let v = varint_at bytes (payload ++ rest) pos (length payload) (omega (arith, long, f)) e in
    (rw v (omega (arith, long, f)), omega (arith, long, f))

module _ (from_utf8_lossy : List ℕ → String) where
  -- What a field says of the address and of the port: field 2 is the text of the one, field 3 the
  -- number of the other, and no other field says anything.
  unfoldable pub read_field : Field → String → ℕ → String × ℕ
  read_field (varint_field n value) ip port = (ip, if n == 3 then value % u32_mod else port)
  read_field (delimited n payload) ip port = (if n == 2 then from_utf8_lossy payload else ip, port)
  read_field (fixed64 n payload) ip port = (ip, port)
  read_field (fixed32 n payload) ip port = (ip, port)

  unfoldable pub read_fields : List Field → String → ℕ → String × ℕ
  unfolding read_field
  read_fields [] ip port = (ip, port)
  read_fields (f ∷ fs) ip port = let (ip', port') = read_field f ip port in read_fields fs ip' port'

  abbrev next_of : ℕ → String × ℕ → Next
  next_of pos (ip, port) = continue pos ip port

  read_ip-delimited :
      (bytes payload rest : List ℕ) (pos : ℕ) (ip : String) (port : ℕ)
      → drop pos bytes ≡ varint (length payload) ++ (payload ++ rest)
      → pos ≤ length bytes
      → length bytes < 2 ^ 63
      → read_ip from_utf8_lossy bytes pos ip port
        ≡ continue
            (pos + length (varint (length payload)) + length payload)
            (from_utf8_lossy payload)
            port
  unfolding read_ip skip_varint
  read_ip-delimited bytes payload rest pos ip port e l b =
      let size = varint (length payload) in
      let long = length-past bytes size (payload ++ rest) pos l e in
      let f = length-append payload rest in
      let v = varint_at bytes (payload ++ rest) pos (length payload) (omega (arith, long, f)) e in
      let o = skip_length-delimited bytes payload rest pos e l b in
      let q = past bytes size (payload ++ rest) pos e in
      let t : take (length payload) (drop (pos + length size) bytes) ≡ payload =
        ap (take (length payload)) q ∙ take-append (length payload) payload rest refl in
      let m : pos + length size + length payload - (pos + length size) ≡ length payload =
        omega arith in
      ground (arith, v, o.0, o.1, m, t)

  step-key :
      (bytes rest : List ℕ) (n wire : ℕ) (pos : ℕ) (ip : String) (port : ℕ)
      → n < 2 ^ 29
      → wire < 8
      → drop pos bytes ≡ varint (n * 8 + wire) ++ rest
      → pos ≤ length bytes
      → step from_utf8_lossy bytes pos ip port
        ≡ field from_utf8_lossy bytes n wire (pos + length (varint (n * 8 + wire))) ip port
  unfolding step
  step-key bytes rest n wire pos ip port h t e l =
      let k = varint_at bytes rest pos (n * 8 + wire) (omega arith) e in
      let len = length-past bytes (varint (n * 8 + wire)) rest pos l e in
      let some = varint-some (n * 8 + wire) in
      let number : (n * 8 + wire) / 8 % u32_mod ≡ n = omega arith in
      let kind : (n * 8 + wire) % 8 ≡ wire = omega arith in
      ground (arith, k, number, kind, len, some)

  pub step-field :
      (bytes rest : List ℕ) (f : Field) (pos : ℕ) (ip : String) (port : ℕ)
      → IsField f
      → drop pos bytes ≡ encode_field f ++ rest
      → pos ≤ length bytes
      → length bytes < 2 ^ 63
      → step from_utf8_lossy bytes pos ip port
        ≡ next_of (pos + length (encode_field f)) (read_field f ip port)
  unfolding read_field encode_field field skip_varint skip_length read_ip
  step-field bytes rest (varint_field n value) pos ip port w e l b =
      let e' = e ∙ append_assoc (key n 0) (varint value) rest in
      let s = step-key bytes (varint value ++ rest) n 0 pos ip port w.0 (omega arith) e' l in
      let p = past bytes (key n 0) (varint value ++ rest) pos e' in
      let v = varint_at bytes rest (pos + length (key n 0)) value w.1 p in
      let a = length-append (key n 0) (varint value) in ground (arith, s, v, a)
  step-field bytes rest (delimited n payload) pos ip port w e l b =
      let size = varint (length payload) in
      let e' : drop pos bytes ≡ key n 2 ++ (size ++ (payload ++ rest)) =
        e
        ∙ (append_assoc (key n 2) (size ++ payload) rest
            ∙ ap (λ x. key n 2 ++ x) (append_assoc size payload rest)) in
      let s = step-key bytes (size ++ (payload ++ rest)) n 2 pos ip port w (omega arith) e' l in
      let p = past bytes (key n 2) (size ++ (payload ++ rest)) pos e' in
      let long = length-past bytes (key n 2) (size ++ (payload ++ rest)) pos l e' in
      let at = pos + length (key n 2) in
      let r = read_ip-delimited bytes payload rest at ip port p (omega (arith, long)) b in
      let o = skip_length-delimited bytes payload rest at p (omega (arith, long)) b in
      let a = length-append (key n 2) (size ++ payload) in
      let c = length-append size payload in ground (arith, s, r, o.0, a, c)
  step-field bytes rest (fixed64 n payload) pos ip port w e l b =
      let e' = e ∙ append_assoc (key n 1) payload rest in
      let s = step-key bytes (payload ++ rest) n 1 pos ip port w.0 (omega arith) e' l in
      let a = length-append (key n 1) payload in ground (arith, s, a, w.1)
  step-field bytes rest (fixed32 n payload) pos ip port w e l b =
      let e' = e ∙ append_assoc (key n 5) payload rest in
      let s = step-key bytes (payload ++ rest) n 5 pos ip port w.0 (omega arith) e' l in
      let a = length-append (key n 5) payload in ground (arith, s, a, w.1)

  pub step-cut :
      (bytes rest : List ℕ) (n wire_type pos : ℕ) (ip : String) (port : ℕ)
      → IsEnding (cut n wire_type rest)
      → drop pos bytes ≡ key n wire_type ++ rest
      → pos ≤ length bytes
      → step from_utf8_lossy bytes pos ip port ≡ stop ip port
  unfolding field
  step-cut bytes rest n wire_type pos ip port w e l =
      let s = step-key bytes rest n wire_type pos ip port w.0 w.2 e l in ground (arith, s, w)
