-- ===== src/Coding/ZeroRun/Digits.antt =====
-- The digits of a run, and what a decoder makes of them.
use aether_arch.Base.{
  ℕ, zero, suc, ◌+◌, ◌-◌, ◌*◌, ◌/◌, ◌%◌, ◌^◌, ◌≤◌, ◌<◌, ◌≡◌, ap, ◌∙◌, List, [], ◌∷◌, arith, ◌==◌,
  false, All,
}
use native.Mathlib.Nat.{pow-suc}
use aether_arch.Coding.ZeroRun.{run_digits, encode_run_length, add_digit, saturating_mul}

-- A decoder's run length and weight after some digits.
unfoldable pub after_digits : ℕ → ℕ → List ℕ → ℕ × ℕ
after_digits run_len power [] = (run_len, power)
after_digits run_len power (d ∷ ds) =
    after_digits (add_digit run_len power d) (saturating_mul power 2) ds

abbrev pub IsDigits : List ℕ → Type 0
IsDigits ds = All (λ d. d ≤ 1) ds

run_digits-IsDigits : (rounds n : ℕ) → IsDigits (run_digits rounds n)
unfolding run_digits
run_digits-IsDigits zero n = tt
run_digits-IsDigits (suc rounds) n = ground (arith, run_digits-IsDigits rounds ((n - 1) / 2))

pub encode_run_length-IsDigits : (n : ℕ) → IsDigits (encode_run_length n)
unfolding encode_run_length
encode_run_length-IsDigits n = run_digits-IsDigits 32 n

-- One digit, where nothing saturates: `n` is what the digits still to come are worth.
add_digit_exact :
    (n run_len power : ℕ)
    → run_len + suc n * power < 2 ^ 64
    → add_digit run_len power (n % 2) + n / 2 * (power * 2) ≡ run_len + suc n * power
unfolding add_digit
add_digit_exact n run_len power h =
    let e : suc n * power ≡ (n % 2 + 1) * power + n / 2 * (power * 2) =
      omega (arith, ap (λ (t : ℕ). t * power) (halves n)) in
    omega arith
  where
    halves : (m : ℕ) → m ≡ m % 2 + m / 2 * 2
    halves m = omega arith

step_eq :
    (rounds n run_len power : ℕ)
    → after_digits run_len power (run_digits (suc rounds) (suc n))
      ≡ after_digits
          (add_digit run_len power (n % 2))
          (saturating_mul power 2)
          (run_digits rounds (n / 2))
unfolding after_digits run_digits
step_eq rounds n run_len power =
    let e : suc n - 1 ≡ n = omega arith in let f : (suc n == 0) ≡ false = ground arith in rw (f, e)

weight_bound : (power p : ℕ) → 0 < p → power * (p * 2) ≤ 2 ^ 63 → power * 2 ≤ 2 ^ 63
weight_bound power p h hp = grind arith

after_digits-run_digits :
    (rounds n run_len power : ℕ)
    → n < 2 ^ rounds
    → run_len + n * power < 2 ^ 64
    → power * 2 ^ rounds ≤ 2 ^ 63
    → (after_digits run_len power (run_digits rounds n)).0 ≡ run_len + n * power
unfolding after_digits run_digits
after_digits-run_digits zero n run_len power hn fits hp =
    let e : n ≡ 0 = omega arith in rw e (omega arith)
after_digits-run_digits (suc rounds) zero run_len power hn fits hp = omega arith
after_digits-run_digits (suc rounds) (suc n) run_len power hn fits hp =
    let hp' : power * (2 ^ rounds * 2) ≤ 2 ^ 63 = rw (← pow-suc 2 rounds) hp in
    let hn' : suc n < 2 ^ rounds * 2 = rw (← pow-suc 2 rounds) hn in
    let small : power * 2 ≤ 2 ^ 63 = weight_bound power (2 ^ rounds) (omega arith) hp' in
    let exact : saturating_mul power 2 ≡ power * 2 = omega arith in
    let digit = add_digit_exact n run_len power fits in
    ap (λ (r : ℕ × ℕ). r.0) (step_eq rounds n run_len power)
    ∙ rw exact (
        after_digits-run_digits rounds (n / 2) (add_digit run_len power (n % 2)) (power * 2)
          (omega arith) (omega (arith, digit)) (omega arith)
        ∙ digit)

-- A decoder reads from the digits of a `u32` that number, with no saturation.
pub after_digits-encode_run_length :
    (n : ℕ) → n < 2 ^ 32 → (after_digits 0 1 (encode_run_length n)).0 ≡ n
unfolding encode_run_length
after_digits-encode_run_length n h =
    after_digits-run_digits 32 n 0 1 h (omega arith) (omega arith) ∙ omega arith
