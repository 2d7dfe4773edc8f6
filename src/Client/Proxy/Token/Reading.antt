-- ===== src/Client/Proxy/Token/Reading.antt =====
-- Reading a buffer of crates/voip-client/src/proxy.rs at a position.
use three_pillars_voip.Base.{
  ℕ, zero, suc, ◌+◌, ◌-◌, ◌^◌, ◌≤◌, ◌<◌, ◌≡◌, refl, sym, ap, ◌∙◌, true, List, [], ◌∷◌, ◌++◌, length,
  arith, length-append,
}
use three_pillars_voip.Base.Bytes.{
  drop, take-append, drop-append, to_be_bytes, length-to_be_bytes, from_be_bytes-to_be_bytes,
}
use three_pillars_voip.Client.Proxy.Token.{ok, is_utf8, read_u16_be, read_u64_be, read_string}

pub length-drop : (n : ℕ) (xs : List ℕ) → length (drop n xs) ≡ length xs - n
length-drop zero xs = omega arith
length-drop (suc n) [] = omega arith
length-drop (suc n) (x ∷ xs) = omega (arith, length-drop n xs)

drop_nil : (n : ℕ) → drop {A = ℕ} n [] ≡ []
drop_nil zero = refl
drop_nil (suc n) = refl

drop-drop : (n k m : ℕ) (xs : List ℕ) → m ≡ n + k → drop k (drop n xs) ≡ drop m xs
drop-drop zero k m xs e = ap (λ j. drop j xs) (omega arith)
drop-drop (suc n) k m [] e = drop_nil k ∙ sym (drop_nil m)
drop-drop (suc n) k zero (x ∷ xs) e = absurd (omega arith)
drop-drop (suc n) k (suc m) (x ∷ xs) e = drop-drop n k m xs (omega arith)

-- The rest of the buffer from a position that is within it.
abbrev pub At : List ℕ → ℕ → List ℕ → Type 0
At buf pos rest = (drop pos buf ≡ rest) × (pos ≤ length buf)

At-next :
    (buf : List ℕ) (pos k : ℕ) (field rest : List ℕ)
    → length field ≡ k
    → At buf pos (field ++ rest)
    → At buf (pos + k) rest
At-next buf pos k field rest l (e, h) = (
  sym (drop-drop pos k (pos + k) buf refl) ∙ (rw e (drop-append k field rest l)),
  omega (arith, length-drop pos buf, ap length e, length-append field rest),
)

pub read_u16_be_lem :
    (buf : List ℕ) (pos n : ℕ) (rest : List ℕ)
    → n < 65536
    → At buf pos (to_be_bytes 2 n ++ rest)
    → (read_u16_be buf pos ≡ ok (n, pos + 2)) × At buf (pos + 2) rest
unfolding read_u16_be
read_u16_be_lem buf pos n rest b a =
    let next = At-next buf pos 2 (to_be_bytes 2 n) rest (length-to_be_bytes 2 n) a in
    let field = take-append 2 (to_be_bytes 2 n) rest (length-to_be_bytes 2 n) in
    let value = from_be_bytes-to_be_bytes 2 n (omega arith) in
    (rw (a.0, read_u16_be) (rw field (ground (arith, value, next.1))), next)

pub read_u64_be_lem :
    (buf : List ℕ) (pos n : ℕ) (rest : List ℕ)
    → n < 2 ^ 64
    → At buf pos (to_be_bytes 8 n ++ rest)
    → (read_u64_be buf pos ≡ ok (n, pos + 8)) × At buf (pos + 8) rest
unfolding read_u64_be
read_u64_be_lem buf pos n rest b a =
    let next = At-next buf pos 8 (to_be_bytes 8 n) rest (length-to_be_bytes 8 n) a in
    let field = take-append 8 (to_be_bytes 8 n) rest (length-to_be_bytes 8 n) in
    let value = from_be_bytes-to_be_bytes 8 n (omega arith) in
    (rw (a.0, read_u64_be) (rw field (ground (arith, value, next.1))), next)

pub read_string_lem :
    (buf : List ℕ) (pos : ℕ) (text rest : List ℕ)
    → is_utf8 text ≡ true
    → At buf pos (text ++ rest)
    → (read_string buf pos (length text) ≡ ok (text, pos + length text))
      × At buf (pos + length text) rest
unfolding read_string
read_string_lem buf pos text rest u a =
    let next = At-next buf pos (length text) text rest refl a in
    let field = take-append (length text) text rest refl in
    (rw (a.0, read_string) (rw field (rw u (ground (arith, next.1)))), next)
