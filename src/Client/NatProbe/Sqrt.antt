-- ===== src/Client/NatProbe/Sqrt.antt =====
-- The square root of crates/voip-client/src/nat_probe.rs, cut to a whole number.
use native.Mathlib.Nat.{pow-suc}
use three_pillars_voip.Base.{
  ℕ, zero, suc, ◌+◌, ◌*◌, ◌^◌, ◌≤◌, ◌<◌, ◌≡◌, leb, if◌then◌else◌, arith, Bool-cases, inl, inr,
}

-- Bit by bit from the highest.
unfoldable pub sqrt_from : ℕ → ℕ → ℕ → ℕ
sqrt_from zero n r = r
sqrt_from (suc k) n r = let c = r + 2 ^ k in sqrt_from k n (if leb (c * c) n then c else r)

-- Of a number below 2^64.
abbrev pub sqrt : ℕ → ℕ
sqrt n = sqrt_from 32 n 0

sqrt_from_lem :
    (k n r : ℕ)
    → r * r ≤ n
    → n < (r + 2 ^ k) * (r + 2 ^ k)
    → let s = sqrt_from k n r in (s * s ≤ n) × (n < (s + 1) * (s + 1))
unfolding sqrt_from
sqrt_from_lem zero n r h l = (h, l)
sqrt_from_lem (suc k) n r h l =
    let c = r + 2 ^ k in
    let e : r + 2 ^ suc k ≡ c + 2 ^ k = omega (arith, pow-suc 2 k) in
    let u : n < (c + 2 ^ k) * (c + 2 ^ k) = rw e at l in
    elim (Bool-cases (leb (c * c) n)) [
      | inl b ↦ rw b (sqrt_from_lem k n c (ground arith) u)
      | inr b ↦ rw b (sqrt_from_lem k n r h (ground arith))
    ]

-- The root is the greatest number whose square is not above a number below 2^64.
pub sqrt_lem : (n : ℕ) → n < 2 ^ 64 → (sqrt n * sqrt n ≤ n) × (n < (sqrt n + 1) * (sqrt n + 1))
sqrt_lem n h = sqrt_from_lem 32 n 0 (omega arith) (omega arith)
