-- ===== src/Coding/Lz77/Decode/Lengths.antt =====
-- Lengths: a nibble and its extension bytes are read back.
use aether_arch.Base.{
  ℕ, zero, suc, ◌+◌, ◌-◌, ◌/◌, ◌≤◌, ◌≡◌, ap, ◌∙◌, true, false, List, ◌++◌, leb, ◌==◌, min, arith,
}
use native.Mathlib.Decide.{dec_lt}
use aether_arch.Errors.{ok}
use aether_arch.Coding.Lz77.Encode.{extension, extend}
use aether_arch.Coding.Lz77.Decode.{read_extension, read_length}

read_extension-extension :
    (rounds rem remaining len : ℕ) (rest : List ℕ)
    → rem ≤ rounds
    → len + rem ≤ remaining
    → read_extension remaining len (extension rounds rem ++ rest) ≡ ok (len + rem, rest)
unfolding read_extension extension
read_extension-extension zero rem remaining len rest h fits = ground arith
read_extension-extension (suc rounds) rem remaining len rest h fits =
    ground (arith, read_extension-extension rounds (rem - 255) remaining (len + 255) rest)

-- A nibble and the bytes behind it; `base` is what the nibble counts from.
pub read_length-extend :
    (n base remaining : ℕ) (rest : List ℕ)
    → n + base ≤ remaining
    → read_length remaining (min n 15) (min n 15 + base) (extend n ++ rest) ≡ ok (n + base, rest)
unfolding read_length extend
read_length-extend n base remaining rest h = elim (dec_lt n 15) [
  | yes p ↦
      let short : leb 15 n ≡ false = ground arith in
      let nibble : min n 15 ≡ n = omega arith in
      let plain : (n == 15) ≡ false = ground arith in rw (short, nibble) (rw plain)
  | no p ↦
      let long : leb 15 n ≡ true = ground arith in
      let nibble : min n 15 ≡ 15 = omega arith in
      rw (long, nibble)
        (read_extension-extension (n - 15) (n - 15) remaining (15 + base) rest (omega arith)
            (omega arith)
          ∙ ap (λ (k : ℕ). ok (k, rest)) (omega arith))
]

-- The length of a run of literals.
pub literal_length :
    (n token remaining : ℕ) (rest : List ℕ)
    → token / 16 ≡ min n 15
    → n ≤ remaining
    → read_length remaining (token / 16) (token / 16) (extend n ++ rest) ≡ ok (n, rest)
literal_length n token remaining rest nibble h =
    let same : min n 15 + 0 ≡ min n 15 = omega arith in
    let none_more : n + 0 ≡ n = omega arith in
    rw nibble (rw (same, none_more) at (read_length-extend n 0 remaining rest (omega arith)))
