-- ===== src/Client/NatProbe/Response/Varint.antt =====
-- The varints of the answer to a path probe, crates/voip-client/src/nat_probe.rs.
use native.Mathlib.Nat.{pow-suc}
use three_pillars_voip.Base.{
  ℕ, zero, suc, ◌+◌, ◌*◌, ◌/◌, ◌%◌, ◌^◌, ◌<◌, ◌≤◌, ◌≡◌, ap, ◌∙◌, List, [], ◌∷◌, ◌++◌, length, ltb,
  if◌then◌else◌, u64_mod, arith, Bool-cases, inl, inr,
}
use three_pillars_voip.Client.NatProbe.Response.{varint_from, decode_varint}

-- The protocol-buffer encoding of a number in at most k bytes.
unfoldable pub leb128 : ℕ → ℕ → List ℕ
leb128 zero n = []
leb128 (suc k) n =
    let rest = leb128 k (n / 128) in if ltb n 128 then n ∷ [] else (128 + n % 128) ∷ rest

abbrev pub varint : ℕ → List ℕ
varint n = leb128 10 n

join : (q r w : ℕ) → r * w + q * (w * 128) ≡ (q * 128 + r) * w
join q r w = grind arith

split : (n w : ℕ) → n % 128 * w + n / 128 * (w * 128) ≡ n * w
split n w =
    let e : n / 128 * 128 + n % 128 ≡ n = omega arith in
    join (n / 128) (n % 128) w ∙ ap (λ x. x * w) e

part : (n w : ℕ) → n % 128 * w ≤ n * w
part n w = grind (arith, split n w)

shifted : (s : ℕ) → 2 ^ (s + 7) ≡ 2 ^ s * 128
shifted s = grind (
  arith,
  pow-suc 2 s,
  pow-suc 2 (suc s),
  pow-suc 2 (suc (suc s)),
  pow-suc 2 (suc (suc (suc s))),
  pow-suc 2 (suc (suc (suc (suc s)))),
  pow-suc 2 (suc (suc (suc (suc (suc s))))),
  pow-suc 2 (suc (suc (suc (suc (suc (suc s)))))),
)

exponent : (k m : ℕ) → 1 ≤ m → m < 128 ^ k → 1 ≤ k
exponent zero m l h = absurd (omega arith)
exponent (suc k) m l h = omega arith

varint_from-leb128 :
    (k s v i n : ℕ) (rest : List ℕ)
    → n < 128 ^ k
    → n * 2 ^ s < u64_mod
    → s + 7 * k ≤ 70
    → 1 ≤ k
    → varint_from s v i (leb128 k n ++ rest) ≡ (v + n * 2 ^ s, i + length (leb128 k n))
unfolding varint_from leb128
varint_from-leb128 zero s v i n rest h l b p = absurd (omega arith)
varint_from-leb128 (suc k) s v i n rest h l b p = elim (Bool-cases (ltb n 128)) [
  | inl c ↦ let m : n % 128 * 2 ^ s % u64_mod ≡ n * 2 ^ s = grind arith in ground (arith, m)
  | inr c ↦
      let m : n % 128 * 2 ^ s % u64_mod ≡ n % 128 * 2 ^ s = grind (arith, part n (2 ^ s)) in
      let q : n / 128 < 128 ^ k = omega (arith, pow-suc 128 k) in
      let e = split n (2 ^ s) in
      let z = shifted s in
      let l' : n / 128 * 2 ^ (s + 7) < u64_mod = grind (arith, e, z, l) in
      let r =
        varint_from-leb128 k (s + 7) (v + n % 128 * 2 ^ s % u64_mod) (i + 1) (n / 128) rest q l'
          (omega arith) (exponent k (n / 128) (ground arith) q) in
      ground (arith, r, m, e, z)
]

pub decode_varint-varint :
    (n : ℕ) (rest : List ℕ)
    → n < u64_mod
    → decode_varint (varint n ++ rest) ≡ (n, length (varint n))
decode_varint-varint n rest h =
    let r =
      varint_from-leb128 10 0 0 0 n rest (omega arith) (omega arith) (omega arith) (omega arith) in
    ground (arith, r)
