-- ===== src/Coding/ZeroRun/Plain.antt =====
-- The plain form: what is accepted, and that decoding undoes encoding.
use aether_arch.Base.{
  ℕ, zero, suc, ◌+◌, ◌-◌, ◌%◌, ◌^◌, ◌≤◌, ◌<◌, ◌≡◌, refl, ap, ◌∙◌, List, [], ◌∷◌, ◌++◌, arith, true,
  false, Bool-cases, inl, inr, length, length-append, replicate, length-replicate, append_assoc,
  append-nil, some, none, ◌==◌, leb, ◌⊎◌,
}
use aether_arch.Errors.{ok}
use aether_arch.Coding.ZeroRun.{
  encode_run_length, add_digit, saturating_mul, contains, rle_encode_loop, rle_encode, end_run,
  push_value, check_size, rle_decode_loop, rle_decode,
}
use aether_arch.Coding.ZeroRun.Digits.{
  after_digits, IsDigits, encode_run_length-IsDigits, after_digits-encode_run_length,
}

-- The decoder takes a run's digits one after the other.
decode_digits :
    (size run_len power : ℕ) (output ds rest : List ℕ)
    → IsDigits ds
    → rle_decode_loop size run_len power output (ds ++ rest)
      ≡ rle_decode_loop size
          (after_digits run_len power ds).0
          (after_digits run_len power ds).1
          output
          rest
unfolding rle_decode_loop after_digits
decode_digits size run_len power output [] rest h = refl
decode_digits size run_len power output (d ∷ ds) rest (hd, hds) =
    let small : leb d 1 ≡ true = ground arith in
    rw (small, rle_decode_loop)
      (decode_digits size (add_digit run_len power d) (saturating_mul power 2) output ds rest hds)

pub end_run_fits :
    (size run_len : ℕ) (output : List ℕ)
    → length output + run_len ≤ size
    → end_run size run_len output ≡ ok (output ++ replicate run_len 0)
unfolding end_run
end_run_fits size run_len output h = ground arith

pub push_value_fits :
    (size v : ℕ) (output : List ℕ)
    → length output < size
    → push_value size v output ≡ ok (output ++ (v ∷ []))
unfolding push_value
push_value_fits size v output h = ground arith

-- A value behind a run that fits.
decode_value :
    (size run_len power v : ℕ) (output rest : List ℕ)
    → 0 < v
    → length output + run_len < size
    → rle_decode_loop size run_len power output ((v + 1) ∷ rest)
      ≡ rle_decode_loop size 0 1 ((output ++ replicate run_len 0) ++ (v ∷ [])) rest
unfolding rle_decode_loop
decode_value size run_len power v output rest hv h =
    let big : leb (v + 1) 1 ≡ false = ground arith in
    let back : v + 1 - 1 ≡ v = omega arith in
    let room : length (output ++ replicate run_len 0) < size =
      omega (arith, length-append output (replicate run_len 0), length-replicate run_len (zero)) in
    rw (big, rle_decode_loop)
      (rw (end_run_fits size run_len output (omega arith))
        (rw back (rw (push_value_fits size v _ room))))

decode_end :
    (size run_len power : ℕ) (output : List ℕ)
    → length output + run_len ≡ size
    → rle_decode_loop size run_len power output [] ≡ ok (output ++ replicate run_len 0)
unfolding rle_decode_loop check_size
decode_end size run_len power output h =
    let full : (length (output ++ replicate run_len 0) == size) ≡ true =
      ground (arith, length-append output (replicate run_len 0), length-replicate run_len zero) in
    rw (end_run_fits size run_len output (omega arith)) (rw full)

decode_run :
    (size run : ℕ) (output rest : List ℕ)
    → run < 2 ^ 32
    → rle_decode_loop size 0 1 output (encode_run_length run ++ rest)
      ≡ rle_decode_loop size run (after_digits 0 1 (encode_run_length run)).1 output rest
decode_run size run output rest h =
    decode_digits size 0 1 output (encode_run_length run) rest (encode_run_length-IsDigits run)
    ∙ rw (after_digits-encode_run_length run h)

-- A zero behind pending zeros is one more pending zero.
pub replicate_snoc :
    (run : ℕ) (rest : List ℕ) → replicate (run + 1) 0 ++ rest ≡ replicate run 0 ++ (0 ∷ rest)
replicate_snoc zero rest = refl
replicate_snoc (suc run) rest =
    let e : suc run + 1 ≡ suc (run + 1) = omega arith in
    rw e (ap (λ r. 0 ∷ r) (replicate_snoc run rest))

-- `output`, the zeros of the pending run and the data still to come make up the whole.
decode-encode_loop :
    (size run : ℕ) (output xs : List ℕ)
    → run + length xs < 2 ^ 32
    → length output + run + length xs ≡ size
    → rle_decode_loop size 0 1 output (rle_encode_loop run xs)
      ≡ ok (output ++ (replicate run 0 ++ xs))
unfolding rle_encode_loop
decode-encode_loop size run output [] h fits = rw (← append-nil (encode_run_length run)) (
    decode_run size run output [] (omega arith)
    ∙ decode_end size run _ output (omega arith)
    ∙ rw append-nil)
decode-encode_loop size run output (zero ∷ rest) h fits =
    let next : (run + 1) % 2 ^ 32 ≡ run + 1 = omega arith in
    rw next (
      decode-encode_loop size (run + 1) output rest (omega arith) (omega arith)
      ∙ rw (replicate_snoc run rest))
decode-encode_loop size run output (suc v ∷ rest) h fits =
    let output' : List ℕ = (output ++ replicate run 0) ++ (suc v ∷ []) in
    let grown : length output' ≡ length output + run + 1 =
      simp length-append (omega (arith, length-replicate run zero)) in
    let value : (suc v == 0) ≡ false = ground arith in
    rw (value, rle_encode_loop)
      (decode_run size run output ((suc v + 1) ∷ rle_encode_loop 0 rest) (omega arith)
        ∙ decode_value size run _ (suc v) output (rle_encode_loop 0 rest) (omega arith)
            (omega arith)
        ∙ decode-encode_loop size 0 output' rest (omega arith) (omega (arith, grown))
        ∙ ap ok (simp append_assoc))

rle_encode_cases :
    (xs : List ℕ)
    → ((contains 255 xs ≡ true) × (rle_encode xs ≡ none))
      ⊎ ((contains 255 xs ≡ false) × (rle_encode xs ≡ some (rle_encode_loop 0 xs)))
rle_encode_cases xs = elim (Bool-cases (contains 255 xs)) [
  | inl c ↦ inl (c, unfold rle_encode in rw c)
  | inr c ↦ inr (c, unfold rle_encode in rw c)
]

-- On rank data shorter than 2 ^ 32: `rle_encode` refuses exactly the data that contain 255, and
-- from what it returns otherwise `rle_decode`, told the length of the data, makes them again.
pub rle_decode-rle_encode :
    (xs : List ℕ)
    → length xs < 2 ^ 32
    → ((contains 255 xs ≡ true) × (rle_encode xs ≡ none))
      ⊎ ((ys : List ℕ) × (contains 255 xs ≡ false)
          × (rle_encode xs ≡ some ys)
          × (rle_decode ys (length xs) ≡ ok xs))
rle_decode-rle_encode xs h = elim (rle_encode_cases xs) [
  | inl r ↦ inl r
  | inr (c, e) ↦ inr (
    rle_encode_loop 0 xs,
    c,
    e,
    unfold rle_decode in decode-encode_loop (length xs) 0 [] xs (omega arith) (omega arith),
  )
]
