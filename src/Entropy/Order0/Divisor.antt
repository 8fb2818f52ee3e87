-- ===== src/Entropy/Order0/Divisor.antt =====
-- Division by multiplication and shift.
use aether_arch.Base.{
  ℕ, ◌+◌, ◌-◌, ◌*◌, ◌/◌, ◌%◌, ◌^◌, ◌≤◌, ◌<◌, ◌≡◌, ap, true, ◌&&◌, leb, ltb, arith, Bool-cases, inl,
  inr,
}
use native.Mathlib.Nat.{
  div-eq_of_lt-le, div-add-mod, mod-lt, mul-le-mul, mul-le-mul_left, le_of_mul-le-mul_right,
  lt_of_mul-lt-mul_right,
}
use aether_arch.Entropy.Order0.{divisor, div, max_magic_total}

-- The product lies between the quotient and the next one, times the power of two.
magic_lem :
    (d n m q r e p : ℕ)
    → 0 < d
    → m * d ≡ p + e
    → n ≡ d * q + r
    → r < d
    → n * e < p
    → (q * p ≤ n * m) × (n * m < (q + 1) * p)
magic_lem d n m q r e p pos hm hn hr he =
    let product : n * (m * d) ≡ n * (p + e) = ap (λ t. n * t) hm in
    let below : p * (d * q) ≤ p * n = mul-le-mul_left p (omega arith) in
    let above : p * (n + 1) ≤ p * (d * q + d) = mul-le-mul_left p (omega arith) in
    (
      le_of_mul-le-mul_right {k = d} (omega (arith, product, below)) pos,
      lt_of_mul-lt-mul_right d (omega (arith, product, above)),
    )

by_magic : (d n : ℕ) → 0 < d → d ≤ 2 ^ 20 → n ≤ 32768 * d → n * (2 ^ 56 / d + 1) / 2 ^ 56 ≡ n / d
by_magic d n pos small most =
    let whole = div-add-mod (2 ^ 56) d in
    let parts = div-add-mod n d in
    let rest = mod-lt (2 ^ 56) pos in
    let e = d - 2 ^ 56 % d in
    let room : n * e ≤ 2 ^ 35 * 2 ^ 20 =
      mul-le-mul {n₂ = 2 ^ 35} {m₂ = 2 ^ 20} (omega arith) (omega arith) in
    let (below, above) =
      magic_lem d n (2 ^ 56 / d + 1) (n / d) (n % d) e (2 ^ 56) pos (omega (arith, whole, rest))
        (omega (arith, parts)) (mod-lt n pos) (omega (arith, room)) in
    div-eq_of_lt-le (2 ^ 56) below above

-- For a total that is not 0, and a number no more than 32768 times the total: `div` is the quotient.
pub div-divisor : (total n : ℕ) → 0 < total → n ≤ 32768 * total → div (divisor total) n ≡ n / total
unfolding div divisor
div-divisor total n pos small = elim (Bool-cases (ltb 0 total && leb total max_magic_total)) [
  | inr slow ↦ rw slow
  | inl quick ↦ rw quick (by_magic total n pos (fits total quick) small)
]
  where
    fits : (total : ℕ) → (ltb 0 total && leb total max_magic_total) ≡ true → total ≤ 2 ^ 20
    fits total h = ground arith
