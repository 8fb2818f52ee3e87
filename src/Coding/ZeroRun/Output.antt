-- ===== src/Coding/ZeroRun/Output.antt =====
-- What the zero-run coders write: bytes, and at most two for each value.
use aether_arch.Base.{
  ℕ, zero, suc, ◌+◌, ◌-◌, ◌*◌, ◌/◌, ◌%◌, ◌^◌, ◌≤◌, ◌≡◌, sym, false, List, [], ◌∷◌, ◌++◌, length,
  length-append, ◌==◌, some, arith, IsBytes, IsBytes-append, Bool-cases, inl, inr,
}
use aether_arch.Coding.ZeroRun.{
  run_digits, encode_run_length, contains, rle_encode_loop, rle_encode, escape, escaped_loop,
  rle_encode_escaped,
}
use aether_arch.Coding.ZeroRun.Digits.{IsDigits, encode_run_length-IsDigits}

digits-IsBytes : (ds : List ℕ) → IsDigits ds → IsBytes ds
digits-IsBytes [] h = tt
digits-IsBytes (d ∷ ds) (first, h) = (omega arith, digits-IsBytes ds h)

run-IsBytes : (n : ℕ) → IsBytes (encode_run_length n)
run-IsBytes n = digits-IsBytes (encode_run_length n) (encode_run_length-IsDigits n)

length-run_digits : (rounds n : ℕ) → length (run_digits rounds n) ≤ n
unfolding run_digits
length-run_digits zero n = omega arith
length-run_digits (suc rounds) n = ground (arith, length-run_digits rounds ((n - 1) / 2))

length-run : (n : ℕ) → length (encode_run_length n) ≤ n
unfolding encode_run_length
length-run n = length-run_digits 32 n

module _ where
  rle_bytes :
      (run : ℕ) (xs : List ℕ)
      → contains 255 xs ≡ false
      → IsBytes xs
      → IsBytes (rle_encode_loop run xs)
  unfolding rle_encode_loop contains
  rle_bytes run [] absent h = run-IsBytes run
  rle_bytes run (x ∷ xs) absent (small, h) =
      let other : (x == 255) ≡ false = ground (arith, absent) in
      let later : contains 255 xs ≡ false = ground (arith, absent) in
      elim (Bool-cases (x == 0)) [
        | inl zero_here ↦
            rw (rle_encode_loop, zero_here) (rle_bytes ((run + 1) % 2 ^ 32) xs later h)
        | inr value ↦
            rw (rle_encode_loop, value)
              (IsBytes-append (encode_run_length run) ((x + 1) ∷ rle_encode_loop 0 xs)
                (run-IsBytes run) (ground (arith, other, small), rle_bytes 0 xs later h))
      ]

  length-rle_encode_loop :
      (run : ℕ) (xs : List ℕ) → length (rle_encode_loop run xs) ≤ run + length xs
  unfolding rle_encode_loop
  length-rle_encode_loop run [] = omega (arith, length-run run)
  length-rle_encode_loop run (x ∷ xs) = elim (Bool-cases (x == 0)) [
    | inl zero_here ↦
        rw (rle_encode_loop, zero_here)
          (omega (arith, length-rle_encode_loop ((run + 1) % 2 ^ 32) xs))
    | inr value ↦
        rw (rle_encode_loop, value)
          (omega (
            arith,
            length-append (encode_run_length run) ((x + 1) ∷ rle_encode_loop 0 xs),
            length-run run,
            length-rle_encode_loop 0 xs,
          ))
  ]

  escape-IsBytes : (v : ℕ) → IsBytes (escape v)
  unfolding escape
  escape-IsBytes v = ground arith

  length-escape : (v : ℕ) → length (escape v) ≤ 2
  unfolding escape
  length-escape v = ground arith

  escaped_bytes : (run : ℕ) (xs : List ℕ) → IsBytes (escaped_loop run xs)
  unfolding escaped_loop
  escaped_bytes run [] = run-IsBytes run
  escaped_bytes run (x ∷ xs) = elim (Bool-cases (x == 0)) [
    | inl zero_here ↦ rw (escaped_loop, zero_here) (escaped_bytes ((run + 1) % 2 ^ 32) xs)
    | inr value ↦
        rw (escaped_loop, value)
          (IsBytes-append (encode_run_length run) (escape x ++ escaped_loop 0 xs) (run-IsBytes run)
            (IsBytes-append (escape x) (escaped_loop 0 xs) (escape-IsBytes x) (escaped_bytes 0 xs)))
  ]

  length-escaped_loop : (run : ℕ) (xs : List ℕ) → length (escaped_loop run xs) ≤ run + 2 * length xs
  unfolding escaped_loop
  length-escaped_loop run [] = omega (arith, length-run run)
  length-escaped_loop run (x ∷ xs) = elim (Bool-cases (x == 0)) [
    | inl zero_here ↦
        rw (escaped_loop, zero_here) (omega (arith, length-escaped_loop ((run + 1) % 2 ^ 32) xs))
    | inr value ↦
        rw (escaped_loop, value)
          (omega (
            arith,
            length-append (encode_run_length run) (escape x ++ escaped_loop 0 xs),
            length-append (escape x) (escaped_loop 0 xs),
            length-run run,
            length-escape x,
            length-escaped_loop 0 xs,
          ))
  ]

pub rle_encode-IsBytes :
    (xs ys : List ℕ) → IsBytes xs → rle_encode xs ≡ some ys → IsBytes ys × (length ys ≤ length xs)
unfolding rle_encode
rle_encode-IsBytes xs ys h done = elim (Bool-cases (contains 255 xs)) [
  | inl has ↦ absurd (cc (rw has at done))
  | inr absent ↦
      let e : rle_encode_loop 0 xs ≡ ys = cc (rw absent at done) in
      rw (sym e) (rle_bytes 0 xs absent h, omega (arith, length-rle_encode_loop 0 xs))
]

pub rle_encode_escaped-IsBytes :
    (xs : List ℕ)
    → IsBytes (rle_encode_escaped xs) × (length (rle_encode_escaped xs) ≤ 2 * length xs)
unfolding rle_encode_escaped
rle_encode_escaped-IsBytes xs = (escaped_bytes 0 xs, omega (arith, length-escaped_loop 0 xs))
