-- ===== src/Coding/Lz77/Decode/Rounds.antt =====
-- What a round of the decoder makes of a sequence and of the final literals.
use aether_arch.Base.{
  ℕ, suc, ◌+◌, ◌-◌, ◌*◌, ◌/◌, ◌%◌, ◌≤◌, ◌<◌, ◌≡◌, ap, ◌∙◌, true, false, List, ◌∷◌, ◌++◌, length,
  take, drop, ltb, leb, ◌==◌, min, arith, take-append-take, length-take_le, length-append,
  length-drop, take-append, drop-append, take_all, take-append-drop, append_assoc,
}
use aether_arch.Errors.{ok}
use aether_arch.Coding.Lz77.Finder.{min_match}
use aether_arch.Coding.Lz77.Finder.Matches.{IsMatch}
use aether_arch.Coding.Lz77.Decode.Lengths.{literal_length}
use aether_arch.Coding.Lz77.Decode.Copies.{read_match_lem}
use aether_arch.Coding.Lz77.Encode.{extend, emit_sequence, emit_final_literals}
use aether_arch.Coding.Lz77.Decode.{read_length, read_match, decode_loop, check_size}

-- A round of the decoder whose parts succeed.
round_step :
    (rounds size token lit_len : ℕ) (input output input' input'' output'' : List ℕ)
    → length output + lit_len < size
    → lit_len ≤ length input'
    → read_length (size - length output) (token / 16) (token / 16) input ≡ ok (lit_len, input')
    → read_match size token (output ++ take lit_len input') (drop lit_len input')
      ≡ ok (input'', output'')
    → decode_loop (suc rounds) size (token ∷ input) output
      ≡ decode_loop rounds size input'' output''
unfolding decode_loop
round_step rounds size token lit_len input output input' input'' output'' room enough len match =
    let going : ltb (length output) size ≡ true = ground arith in
    let there : leb lit_len (length input') ≡ true = ground arith in
    let more : leb size (length (output ++ take lit_len input')) ≡ false =
      ground
        (arith, length-append output (take lit_len input'), length-take_le lit_len input' enough) in
    rw going (rw len (rw there (rw more (rw match))))

-- The last round: its literals complete the output.
last_step :
    (rounds size token lit_len : ℕ) (input output input' : List ℕ)
    → length output < size
    → length output + lit_len ≡ size
    → lit_len ≤ length input'
    → read_length (size - length output) (token / 16) (token / 16) input ≡ ok (lit_len, input')
    → decode_loop (suc rounds) size (token ∷ input) output ≡ ok (output ++ take lit_len input')
unfolding decode_loop
last_step rounds size token lit_len input output input' room all enough len =
    let going : ltb (length output) size ≡ true = ground arith in
    let there : leb lit_len (length input') ≡ true = ground arith in
    let grown : length (output ++ take lit_len input') ≡ size =
      length-append output (take lit_len input')
      ∙ omega (arith, length-take_le lit_len input' enough) in
    let done : leb size (length (output ++ take lit_len input')) ≡ true = ground (arith, grown) in
    let exact : (length (output ++ take lit_len input') == size) ≡ true = ground (arith, grown) in
    rw going (rw len (rw there (rw done (unfold check_size in rw exact))))

module _ (rounds start pos : ℕ) (xs : List ℕ) (h : start ≤ pos) (inside : pos ≤ length xs) where
  abbrev pub literals : List ℕ
  literals = take (pos - start) (drop start xs)

  length-literals : length literals ≡ pos - start
  length-literals =
      length-take_le (pos - start) (drop start xs) (omega (arith, length-drop start xs))

  -- The output behind the literals.
  output_literals :
      (tail : List ℕ) → take start xs ++ take (pos - start) (literals ++ tail) ≡ take pos xs
  output_literals tail =
      rw (take-append (pos - start) literals tail length-literals)
        ((take-append-take start (pos - start) xs ∙ ap (λ (n : ℕ). take n xs) (omega arith)))

  -- The decoder reads a sequence: literals up to `pos`, then a match there.
  pub decode_sequence :
      (best : ℕ × ℕ) (rest : List ℕ)
      → IsMatch xs pos best
      → min_match ≤ best.1
      → decode_loop
          (suc rounds)
          (length xs)
          (emit_sequence literals best.0 best.1 ++ rest)
          (take start xs)
        ≡ decode_loop rounds (length xs) rest (take (pos + best.1) xs)
  decode_sequence best rest m long =
      let full : length (take start xs) ≡ start = length-take_le start xs (omega arith) in
      let tail : List ℕ =
        (best.0 % 256) ∷ (best.0 / 256 % 256) ∷ (extend (best.1 - min_match) ++ rest) in
      let token : ℕ = min (pos - start) 15 * 16 + min (best.1 - min_match) 15 in
      let shape : emit_sequence literals best.0 best.1 ++ rest
          ≡ token ∷ (extend (pos - start) ++ (literals ++ tail)) =
        unfold emit_sequence in
        rw length-literals (ap (λ (r : List ℕ). token ∷ r) (simp append_assoc)) in
      rw shape (
        round_step rounds (length xs) token (pos - start)
          (extend (pos - start) ++ (literals ++ tail)) (take start xs) (literals ++ tail) rest
          (take (pos + best.1) xs) (omega (arith, m.inside, full))
          (omega (arith, length-append literals tail, length-literals))
          (literal_length (pos - start) token (length xs - length (take start xs))
            (literals ++ tail) (omega arith) (omega (arith, full)))
          (rw (output_literals tail, drop-append (pos - start) literals tail length-literals)
            (read_match_lem xs pos token best rest m long (omega arith))))

-- The decoder reads the final literals.
pub decode_final :
    (rounds start : ℕ) (xs : List ℕ)
    → start < length xs
    → decode_loop (suc rounds) (length xs) (emit_final_literals (drop start xs)) (take start xs)
      ≡ ok xs
unfolding emit_final_literals
decode_final rounds start xs h =
    let full : length (take start xs) ≡ start = length-take_le start xs (omega arith) in
    let rest : List ℕ = drop start xs in
    let token : ℕ = min (length rest) 15 * 16 in
    last_step rounds (length xs) token (length rest) (extend (length rest) ++ rest) (take start xs)
      rest (omega (arith, full)) (omega (arith, full, length-drop start xs)) (omega arith)
      (literal_length (length rest) token (length xs - length (take start xs)) rest (omega arith)
        (omega (arith, full, length-drop start xs)))
    ∙ ap ok (
        ap (λ (r : List ℕ). take start xs ++ r) (take_all (length rest) rest (omega arith))
        ∙ take-append-drop start xs)
