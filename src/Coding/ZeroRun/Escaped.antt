-- ===== src/Coding/ZeroRun/Escaped.antt =====
-- The escaped form: decoding undoes encoding, on all rank data.
use aether_arch.Base.{
  ℕ, zero, suc, ◌+◌, ◌-◌, ◌%◌, ◌^◌, ◌<◌, ◌≡◌, refl, ap, ◌∙◌, List, [], ◌∷◌, ◌++◌, arith, true,
  false, IsBytes, length, length-append, replicate, length-replicate, append_assoc, append-nil,
  ◌==◌, leb, ltb,
}
use native.Mathlib.Decide.{dec_lt, ℕ_discrete}
use aether_arch.Errors.{ok}
use aether_arch.Coding.ZeroRun.{
  encode_run_length, add_digit, saturating_mul, escape, escaped_loop, rle_encode_escaped,
  check_size, unescape, room, escaped_decode_loop, rle_decode_escaped,
}
use aether_arch.Coding.ZeroRun.Plain.{end_run_fits, push_value_fits, replicate_snoc}
use aether_arch.Coding.ZeroRun.Digits.{
  after_digits, IsDigits, encode_run_length-IsDigits, after_digits-encode_run_length,
}

decode_digits :
    (size run_len power : ℕ) (output ds rest : List ℕ)
    → IsDigits ds
    → escaped_decode_loop size false run_len power output (ds ++ rest)
      ≡ escaped_decode_loop size false
          (after_digits run_len power ds).0
          (after_digits run_len power ds).1
          output
          rest
unfolding escaped_decode_loop after_digits
decode_digits size run_len power output [] rest h = refl
decode_digits size run_len power output (d ∷ ds) rest (hd, hds) =
    let small : leb d 1 ≡ true = ground arith in
    rw (small, escaped_decode_loop)
      (decode_digits size (add_digit run_len power d) (saturating_mul power 2) output ds rest hds)

decode_run :
    (size run : ℕ) (output rest : List ℕ)
    → run < 2 ^ 32
    → escaped_decode_loop size false 0 1 output (encode_run_length run ++ rest)
      ≡ escaped_decode_loop size false run (after_digits 0 1 (encode_run_length run)).1 output rest
decode_run size run output rest h =
    decode_digits size 0 1 output (encode_run_length run) rest (encode_run_length-IsDigits run)
    ∙ rw (after_digits-encode_run_length run h)

decode_end :
    (size run_len power : ℕ) (output : List ℕ)
    → length output + run_len ≡ size
    → escaped_decode_loop size false run_len power output [] ≡ ok (output ++ replicate run_len 0)
unfolding escaped_decode_loop check_size
decode_end size run_len power output h =
    let full : (length (output ++ replicate run_len 0) == size) ≡ true =
      ground (arith, length-append output (replicate run_len 0), length-replicate run_len zero) in
    rw (end_run_fits size run_len output (omega arith)) (rw full)

module _ (size run_len power : ℕ) (output rest : List ℕ) (h : length output + run_len < size) where
  abbrev flushed : List ℕ
  flushed = output ++ replicate run_len 0

  length-flushed : length flushed < size
  length-flushed =
      omega (arith, length-append output (replicate run_len 0), length-replicate run_len zero)

  -- An escape: 255, then the suffix of 254 or 255.
  decode_escape :
      (suffix v : ℕ)
      → unescape suffix ≡ ok v
      → escaped_decode_loop size false run_len power output (255 ∷ suffix ∷ rest)
        ≡ escaped_decode_loop size false 0 1 (flushed ++ (v ∷ [])) rest
  unfolding escaped_decode_loop room
  decode_escape suffix v e =
      let free : ltb (length (output ++ replicate run_len 0)) size ≡ true =
        ground (arith, length-flushed) in
      rw (end_run_fits size run_len output (omega arith)) (rw free (rw e))

  decode_plain :
      (v : ℕ)
      → 0 < v
      → v < 254
      → escaped_decode_loop size false run_len power output ((v + 1) ∷ rest)
        ≡ escaped_decode_loop size false 0 1 (flushed ++ (v ∷ [])) rest
  unfolding escaped_decode_loop
  decode_plain v hv hs =
      let big : leb (v + 1) 1 ≡ false = ground arith in
      let other : (v + 1 == 255) ≡ false = ground arith in
      let back : v + 1 - 1 ≡ v = omega arith in
      rw (big, escaped_decode_loop)
        (rw other (
          rw (end_run_fits size run_len output (omega arith))
            (rw back (rw (push_value_fits size v flushed length-flushed)))))

  decode_value :
      (v : ℕ)
      → 0 < v
      → v < 256
      → escaped_decode_loop size false run_len power output (escape v ++ rest)
        ≡ escaped_decode_loop size false 0 1 (flushed ++ (v ∷ [])) rest
  decode_value v hv hs = elim (dec_lt v 254) [
    | yes p ↦
        let e : escape v ≡ (v + 1) ∷ [] = (unfold escape in ground arith) in
        rw e (decode_plain v hv p)
    | no p ↦ elim (ℕ_discrete v 254) [
      | yes q ↦ rw q (unfold escape in (decode_escape 2 254 (unfold unescape in refl)))
      | no q ↦
          let q' : v ≡ 255 = omega (arith, p, q) in
          rw q' (unfold escape in (decode_escape 3 255 (unfold unescape in refl)))
    ]
  ]

decode-escaped_loop :
    (size run : ℕ) (output xs : List ℕ)
    → IsBytes xs
    → run + length xs < 2 ^ 32
    → length output + run + length xs ≡ size
    → escaped_decode_loop size false 0 1 output (escaped_loop run xs)
      ≡ ok (output ++ (replicate run 0 ++ xs))
unfolding escaped_loop
decode-escaped_loop size run output [] hb h fits = rw (← append-nil (encode_run_length run)) (
    decode_run size run output [] (omega arith)
    ∙ decode_end size run _ output (omega arith)
    ∙ rw append-nil)
decode-escaped_loop size run output (zero ∷ rest) (hv, hb) h fits =
    let next : (run + 1) % 2 ^ 32 ≡ run + 1 = omega arith in
    rw next (
      decode-escaped_loop size (run + 1) output rest hb (omega arith) (omega arith)
      ∙ rw (replicate_snoc run rest))
decode-escaped_loop size run output (suc v ∷ rest) (hv, hb) h fits =
    let value : (suc v == 0) ≡ false = ground arith in
    let output' : List ℕ = (output ++ replicate run 0) ++ (suc v ∷ []) in
    let grown : length output' ≡ length output + run + 1 =
      simp length-append (omega (arith, length-replicate run zero)) in
    rw (value, escaped_loop)
      (decode_run size run output (escape (suc v) ++ escaped_loop 0 rest) (omega arith)
        ∙ decode_value size run _ output (escaped_loop 0 rest) (omega arith) (suc v) (omega arith)
            hv
        ∙ decode-escaped_loop size 0 output' rest hb (omega arith) (omega (arith, grown))
        ∙ ap ok (simp append_assoc))

-- For all byte data shorter than 2 ^ 32, 254 and 255 included, `rle_decode_escaped`, told the length
-- of the data, makes them again from what `rle_encode_escaped` writes.
pub rle_decode_escaped-rle_encode_escaped :
    (xs : List ℕ)
    → IsBytes xs
    → length xs < 2 ^ 32
    → rle_decode_escaped (rle_encode_escaped xs) (length xs) ≡ ok xs
unfolding rle_encode_escaped rle_decode_escaped
rle_decode_escaped-rle_encode_escaped xs hb h =
    decode-escaped_loop (length xs) 0 [] xs hb (omega arith) (omega arith)
