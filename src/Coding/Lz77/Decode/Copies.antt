-- ===== src/Coding/Lz77/Decode/Copies.antt =====
-- The copy of a match makes of a prefix of the data a longer one, overlapping or not.
use aether_arch.Base.{
  ℕ, zero, suc, ◌+◌, ◌-◌, ◌*◌, ◌/◌, ◌%◌, ◌≤◌, ◌≡◌, sym, ap, ◌∙◌, true, false, ◌&&◌, List, ◌∷◌, ◌++◌,
  length, take, drop, ltb, leb, min, arith, Bool-cases, inl, inr, take-take, drop-take, drop-drop,
  take-append-take, length-take_le,
}
use native.Mathlib.Decide.{dec_lt}
use native.Mathlib.Nat.{add_assoc}
use aether_arch.Errors.{Result, ok}
use aether_arch.Coding.Lz77.Finder.{min_match}
use aether_arch.Coding.Lz77.Finder.Matches.{IsMatch}
use aether_arch.Coding.Lz77.Decode.Lengths.{read_length-extend}
use aether_arch.Coding.Lz77.Encode.{extend}
use aether_arch.Coding.Lz77.Decode.{copy_chunks, copy_match, read_match}

-- The copy of a match makes of a prefix of the data a longer one.
module _ (xs : List ℕ) (pos : ℕ) (best : ℕ × ℕ) (m : IsMatch xs pos best) where
  -- A piece of the match, from its `j`-th byte on.
  piece_same :
      (j c : ℕ) → j + c ≤ best.1 → take c (drop (pos + j - best.0) xs) ≡ take c (drop (pos + j) xs)
  piece_same j c h =
      let e : pos - best.0 + j ≡ pos + j - best.0 = omega (arith, m.reaches) in
      rw (← e)
        (sym (inner (pos - best.0)) ∙ ap (λ (ys : List ℕ). take c (drop j ys)) m.same ∙ inner pos)
    where
      inner : (s : ℕ) → take c (drop j (take best.1 (drop s xs))) ≡ take c (drop (s + j) xs)
      inner s =
          ap (take c) (drop-take j best.1 (drop s xs))
          ∙ take-take c (best.1 - j) (drop j (drop s xs)) (omega arith)
          ∙ ap (take c) (drop-drop j s xs)

  copy_piece :
      (j c : ℕ)
      → j + c ≤ best.1
      → c ≤ best.0
      → take (pos + j) xs ++ take c (drop (length (take (pos + j) xs) - best.0) (take (pos + j) xs))
        ≡ take (pos + j + c) xs
  copy_piece j c h near =
      let full : length (take (pos + j) xs) ≡ pos + j =
        length-take_le (pos + j) xs (omega (arith, m.inside)) in
      let within : drop (pos + j - best.0) (take (pos + j) xs)
          ≡ take best.0 (drop (pos + j - best.0) xs) =
        drop-take (pos + j - best.0) (pos + j) xs
        ∙ ap (λ (n : ℕ). take n (drop (pos + j - best.0) xs)) (omega (arith, m.reaches)) in
      rw (full, within, take-take c best.0 (drop (pos + j - best.0) xs) near, piece_same j c h)
        (take-append-take (pos + j) c xs)

  copy_chunks_lem :
      (rounds j : ℕ)
      → j ≤ best.1
      → best.1 - j ≤ rounds
      → copy_chunks rounds best.0 (best.1 - j) (take (pos + j) xs) ≡ take (pos + best.1) xs
  unfolding copy_chunks
  copy_chunks_lem zero j h hr = ap (λ (n : ℕ). take n xs) (omega arith)
  copy_chunks_lem (suc rounds) j h hr = elim (dec_lt 0 (best.1 - j)) [
    | no p ↦
        let done : ltb 0 (best.1 - j) ≡ false = ground arith in
        rw done (ap (λ (n : ℕ). take n xs) (omega arith))
    | yes p ↦
        let more : ltb 0 (best.1 - j) ≡ true = ground arith in
        let c : ℕ = min (best.1 - j) best.0 in
        let left : best.1 - j - c ≡ best.1 - (j + c) = omega arith in
        rw more (
          rw (copy_piece j c (omega arith) (omega arith), left, add_assoc pos j c)
            (copy_chunks_lem rounds (j + c) (omega arith) (omega (arith, m.positive))))
  ]

  pub copy_match_lem : copy_match best.0 best.1 (take pos xs) ≡ take (pos + best.1) xs
  unfolding copy_match
  copy_match_lem = elim (Bool-cases (leb best.1 best.0)) [
    | inl near ↦
        let start : pos + 0 ≡ pos = omega arith in
        rw near (rw start at (copy_piece 0 best.1 (omega arith) (ground arith)))
    | inr far ↦
        let start : pos + 0 ≡ pos = omega arith in
        let all : best.1 - 0 ≡ best.1 = omega arith in
        rw far (rw (start, all) at (copy_chunks_lem best.1 0 (omega arith) (omega arith)))
  ]

-- The offset and the length of a match.
pub read_match_lem :
    (xs : List ℕ) (pos token : ℕ) (best : ℕ × ℕ) (rest : List ℕ)
    → IsMatch xs pos best
    → min_match ≤ best.1
    → token % 16 ≡ min (best.1 - min_match) 15
    → read_match
        (length xs)
        token
        (take pos xs)
        ((best.0 % 256) ∷ (best.0 / 256 % 256) ∷ (extend (best.1 - min_match) ++ rest))
      ≡ ok (rest, take (pos + best.1) xs)
unfolding read_match
read_match_lem xs pos token best rest m long nibble =
    let offset : best.0 % 256 + best.0 / 256 % 256 * 256 ≡ best.0 = omega (arith, m.in_window) in
    let full : length (take pos xs) ≡ pos = length-take_le pos xs (omega (arith, m.inside)) in
    let valid : (ltb 0 best.0 && leb best.0 pos) ≡ true = ground (arith, m.positive, m.reaches) in
    let whole : best.1 - min_match + min_match ≡ best.1 = omega arith in
    rw (offset, full, nibble)
      (rw valid (
        rw
          (read_length-extend (best.1 - min_match) min_match (length xs - pos) rest
            (omega (arith, m.inside)))
          (rw whole (
            ap {B = Result (List ℕ × List ℕ)} (λ (o : List ℕ). ok (rest, o))
              (copy_match_lem xs pos best m)))))
