-- ===== src/Coding/ZeroRun.antt =====
-- aether-core/src/coding/bwt_preprocess.rs: zero runs in bijective base 2, plain and escaped.
-- A loop over `i` is a recursion on what it has not reached. The inner loop of a run is the same
-- recursion with the run so far as its state, where no run is a run of length 0: writing its digits
-- writes nothing, and adding its zeros adds nothing and never fails.
pub mod Digits
pub mod Plain
pub mod Escaped
pub mod Output
use aether_arch.Base.{
  ℕ, zero, suc, ◌+◌, ◌-◌, ◌*◌, ◌/◌, ◌%◌, ◌^◌, Bool, true, false, ◌||◌, List, [], ◌∷◌, ◌++◌, length,
  replicate, ltb, leb, ◌==◌, if◌then◌else◌, Option, none, some, min,
}
use aether_arch.Errors.{Result, ok, err, decompression, ◌>>=◌, ◌>>◌, guard}

-- `while n > 0 { n -= 1; push(n & 1); n >>= 1 }` on a `u32`: at most 32 rounds.
unfoldable pub run_digits : ℕ → ℕ → List ℕ
run_digits zero n = []
run_digits (suc rounds) n =
    let digits = ((n - 1) % 2) ∷ run_digits rounds ((n - 1) / 2) in if n == 0 then [] else digits

unfoldable pub encode_run_length : ℕ → List ℕ
unfolding run_digits
encode_run_length n = run_digits 32 n

unfoldable pub contains : ℕ → List ℕ → Bool
contains v [] = false
contains v (x ∷ xs) = x == v || contains v xs

-- `run` is the `run_len` of the zeros just passed, a `u32`.
unfoldable pub rle_encode_loop : ℕ → List ℕ → List ℕ
unfolding encode_run_length
rle_encode_loop run [] = encode_run_length run
rle_encode_loop run (v ∷ rest) = elim (v == 0) [
  | true ↦ rle_encode_loop ((run + 1) % 2 ^ 32) rest
  | false ↦ encode_run_length run ++ ((v + 1) ∷ rle_encode_loop 0 rest)
]

unfoldable pub rle_encode : List ℕ → Option (List ℕ)
unfolding contains rle_encode_loop
rle_encode mtf_data = if contains 255 mtf_data then none else some (rle_encode_loop 0 mtf_data)

-- What a value other than 0 is written as in the escaped form.
unfoldable pub escape : ℕ → List ℕ
escape v = if ltb v 254 then (v + 1) ∷ [] else if v == 254 then 255 ∷ 2 ∷ [] else 255 ∷ 3 ∷ []

unfoldable pub escaped_loop : ℕ → List ℕ → List ℕ
unfolding encode_run_length escape
escaped_loop run [] = encode_run_length run
escaped_loop run (v ∷ rest) = elim (v == 0) [
  | true ↦ escaped_loop ((run + 1) % 2 ^ 32) rest
  | false ↦ encode_run_length run ++ (escape v ++ escaped_loop 0 rest)
]

unfoldable pub rle_encode_escaped : List ℕ → List ℕ
unfolding escaped_loop
rle_encode_escaped mtf_data = escaped_loop 0 mtf_data

-- Saturating arithmetic on `u64`.
abbrev pub u64_max : ℕ
u64_max = 2 ^ 64 - 1

abbrev pub saturating_add : ℕ → ℕ → ℕ
saturating_add a b = min (a + b) u64_max

abbrev pub saturating_mul : ℕ → ℕ → ℕ
saturating_mul a b = min (a * b) u64_max

-- One more digit of a run: its length so far, and the weight of the digit.
unfoldable pub add_digit : ℕ → ℕ → ℕ → ℕ
add_digit run_len power digit = saturating_add run_len (saturating_mul (digit + 1) power)

-- The end of a run: refuse it if it passes what is left of the output, else write its zeros.
unfoldable pub end_run : ℕ → ℕ → List ℕ → Result (List ℕ)
end_run expected_size run_len output =
    if ltb (expected_size - length output) run_len
    then err decompression
    else ok (output ++ replicate run_len 0)

-- A value is written only if there is room for it.
unfoldable pub push_value : ℕ → ℕ → List ℕ → Result (List ℕ)
push_value expected_size v output =
    if leb expected_size (length output) then err decompression else ok (output ++ (v ∷ []))

unfoldable pub check_size : ℕ → List ℕ → Result (List ℕ)
check_size expected_size output =
    if length output == expected_size then ok output else err decompression

unfoldable pub rle_decode_loop : ℕ → ℕ → ℕ → List ℕ → List ℕ → Result (List ℕ)
unfolding add_digit end_run push_value check_size
rle_decode_loop expected_size run_len power output [] = do
  output' ← end_run expected_size run_len output
  check_size expected_size output'
rle_decode_loop expected_size run_len power output (b ∷ rest) = elim (leb b 1) [
  | true ↦
      rle_decode_loop expected_size (add_digit run_len power b) (saturating_mul power 2) output rest
  | false ↦ do
    output' ← end_run expected_size run_len output
    output'' ← push_value expected_size (b - 1) output'
    rle_decode_loop expected_size 0 1 output'' rest
]

unfoldable pub rle_decode : List ℕ → ℕ → Result (List ℕ)
unfolding rle_decode_loop
rle_decode rle_data expected_size = rle_decode_loop expected_size 0 1 [] rle_data

-- The value that an escape suffix stands for.
unfoldable pub unescape : ℕ → Result ℕ
unescape suffix = if suffix == 2 then ok 254 else if suffix == 3 then ok 255 else err decompression

-- `room` is the check that comes before the suffix is looked at.
unfoldable pub room : ℕ → List ℕ → Result (Unit {0})
room expected_size output = guard (ltb (length output) expected_size) decompression

-- `escaping` is true just behind a 255 that is no run digit.
unfoldable pub escaped_decode_loop : ℕ → Bool → ℕ → ℕ → List ℕ → List ℕ → Result (List ℕ)
unfolding add_digit end_run push_value check_size unescape room
escaped_decode_loop expected_size true run_len power output [] = err decompression
escaped_decode_loop expected_size true run_len power output (suffix ∷ rest) = do
  room expected_size output
  v ← unescape suffix
  escaped_decode_loop expected_size false 0 1 (output ++ (v ∷ [])) rest
escaped_decode_loop expected_size false run_len power output [] = do
  output' ← end_run expected_size run_len output
  check_size expected_size output'
escaped_decode_loop expected_size false run_len power output (sym ∷ rest) = elim (leb sym 1) [
  | true ↦
      escaped_decode_loop expected_size false (add_digit run_len power sym) (saturating_mul power 2)
        output rest
  | false ↦ elim (sym == 255) [
    | true ↦ do
      output' ← end_run expected_size run_len output
      escaped_decode_loop expected_size true 0 1 output' rest
    | false ↦ do
      output' ← end_run expected_size run_len output
      output'' ← push_value expected_size (sym - 1) output'
      escaped_decode_loop expected_size false 0 1 output'' rest
  ]
]

unfoldable pub rle_decode_escaped : List ℕ → ℕ → Result (List ℕ)
unfolding escaped_decode_loop
rle_decode_escaped rle_data expected_size = escaped_decode_loop expected_size false 0 1 [] rle_data
