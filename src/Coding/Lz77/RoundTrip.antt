-- ===== src/Coding/Lz77/RoundTrip.antt =====
-- Decoding undoes encoding, and the encoder's rounds are enough.
use aether_arch.Base.{
  ℕ, zero, suc, ◌+◌, ◌-◌, ◌≤◌, ◌<◌, ◌≡◌, refl, ◌∙◌, Bool, true, false, ◌||◌, List, [], ◌∷◌, ◌++◌,
  length, take, drop, ltb, leb, ◌==◌, min, arith, Bool-cases, Option-cases, inl, inr, length-append,
  length-drop, take_all, drop_all, some, none, ◌⊎◌, to_le, from_le, from_le-to_le, length-to_le,
  take-append, drop-append,
}
use native.Mathlib.Decide.{dec_lt}
use aether_arch.Errors.{ok}
use aether_arch.Coding.Lz77.Finder.{
  MatchFinder, hash3, new, insert, find_best, min_match, max_lz77_input_size,
}
use aether_arch.Coding.Lz77.Finder.Matches.{IsMatch, find_best-IsMatch}
use aether_arch.Coding.Lz77.Encode.{
  emit_sequence, emit_final_literals, insert_range, take_match, finish, encode_loop, lz77_encode,
}
use aether_arch.Coding.Lz77.Decode.{decode_loop, check_size, lz77_decode}
use aether_arch.Coding.Lz77.Decode.Rounds.{decode_sequence, decode_final}

-- What is left to decode at the end of the data.
decode_done : (rounds : ℕ) (xs : List ℕ) → decode_loop rounds (length xs) [] xs ≡ ok xs
unfolding decode_loop check_size
decode_done zero xs = ground arith
decode_done (suc rounds) xs = ground arith

finish_cases :
    (xs : List ℕ) (start : ℕ)
    → ((length xs ≤ start) × (finish xs start ≡ []))
      ⊎ ((start < length xs) × (finish xs start ≡ emit_final_literals (drop start xs)))
finish_cases xs start = elim (dec_lt start (length xs)) [
  | yes h ↦ inr (h, nonempty (drop start xs) refl (omega (arith, length-drop start xs)))
  | no h ↦ inl (omega arith, unfold finish in rw (drop_all start xs (omega arith), finish))
]
  where
    nonempty :
        (ys : List ℕ)
        → drop start xs ≡ ys
        → 0 < length ys
        → finish xs start ≡ emit_final_literals (drop start xs)
    nonempty [] e h = absurd (omega arith)
    nonempty (y ∷ ys) e h = unfold finish in rw (e, finish)

decode-finish :
    (rounds start : ℕ) (xs : List ℕ)
    → length (finish xs start) ≤ rounds
    → decode_loop rounds (length xs) (finish xs start) (take start xs) ≡ ok xs
decode-finish rounds start xs h = elim (finish_cases xs start) [
  | inl (past, e) ↦ rw (e, take_all start xs past) (decode_done rounds xs)
  | inr (before, e) ↦ rw e (final rounds (rw e at h) before)
]
  where
    final :
        (n : ℕ)
        → length (emit_final_literals (drop start xs)) ≤ n
        → start < length xs
        → decode_loop n (length xs) (emit_final_literals (drop start xs)) (take start xs) ≡ ok xs
    final zero fits before = absurd (unfold emit_final_literals in omega arith)
    final (suc n) fits before = decode_final n start xs before

module _ (rounds : ℕ) (xs : List ℕ) (m : MatchFinder) (pos start : ℕ) (deferred : Bool) where
  abbrev skip : Bool → List ℕ
  skip again = encode_loop rounds xs (insert pos (hash3 xs pos) m) (pos + 1) start again

  abbrev jump : ℕ × ℕ → List ℕ
  jump best =
      emit_sequence (take (pos - start) (drop start xs)) best.0 best.1
      ++ encode_loop rounds xs (insert_range (min (pos + best.1) (length xs - 2) - pos) xs pos m)
          (pos + best.1) (pos + best.1) false

  -- The three things that a round of the encoder does.
  pub data Round (bytes : List ℕ) : Type 0 where
    ends : bytes ≡ finish xs start → Round bytes
    skips : (again : Bool) → pos + 2 < length xs → bytes ≡ skip again → Round bytes
    jumps :
        (best : ℕ × ℕ)
        → pos + 2 < length xs
        → find_best m xs pos (hash3 xs pos) ≡ some best
        → bytes ≡ jump best
        → Round bytes

  pub round : Round (encode_loop (suc rounds) xs m pos start deferred)
  round = elim (Bool-cases (ltb (pos + 2) (length xs))) [
    | inr end ↦ ends (unfold encode_loop in rw end)
    | inl room ↦ elim (Option-cases (find_best m xs pos (hash3 xs pos))) [
      | inl e ↦ skips false (ground arith) (unfold encode_loop in rw (room, e))
      | inr (best, e) ↦ elim (Bool-cases (take_match m xs pos deferred best.1)) [
        | inl t ↦ jumps best (ground arith) e (unfold encode_loop in rw (room, e, t))
        | inr t ↦ skips true (ground arith) (unfold encode_loop in rw (room, e, t))
      ]
    ]
  ]

emit_sequence_grows : (ls : List ℕ) (offset len : ℕ) → 0 < length (emit_sequence ls offset len)
unfolding emit_sequence
emit_sequence_grows ls offset len = omega arith

-- A sequence in front of bytes that complete the output.
after_jump :
    (start pos : ℕ) (xs : List ℕ) (best : ℕ × ℕ) (n : ℕ) (rest : List ℕ)
    → start ≤ pos
    → IsMatch xs pos best
    → min_match ≤ best.1
    → length (emit_sequence (take (pos - start) (drop start xs)) best.0 best.1 ++ rest) ≤ n
    → ((k : ℕ) → length rest ≤ k → decode_loop k (length xs) rest (take (pos + best.1) xs) ≡ ok xs)
    → decode_loop n
        (length xs)
        (emit_sequence (take (pos - start) (drop start xs)) best.0 best.1 ++ rest)
        (take start xs)
      ≡ ok xs
after_jump start pos xs best zero rest le match long fits later = absurd (
    omega (
      arith,
      length-append (emit_sequence (take (pos - start) (drop start xs)) best.0 best.1) rest,
      emit_sequence_grows (take (pos - start) (drop start xs)) best.0 best.1,
    ))
after_jump start pos xs best (suc k) rest le match long fits later =
    decode_sequence k start pos xs le (omega (arith, match.inside)) best rest match long
    ∙ later k (
        omega (
          arith,
          length-append (emit_sequence (take (pos - start) (drop start xs)) best.0 best.1) rest,
          emit_sequence_grows (take (pos - start) (drop start xs)) best.0 best.1,
        ))

-- From any state of the encoder's loop: what it still writes completes the decoder's output, which
-- holds the data up to the first literal not yet written.
decode-encode_loop :
    (rounds : ℕ) (xs : List ℕ) (m : MatchFinder) (pos start : ℕ) (deferred : Bool) (n : ℕ)
    → start ≤ pos
    → pos ≤ length xs
    → length (encode_loop rounds xs m pos start deferred) ≤ n
    → decode_loop n (length xs) (encode_loop rounds xs m pos start deferred) (take start xs) ≡ ok xs
decode-encode_loop zero xs m pos start deferred n le inside fits =
    unfold encode_loop in decode-finish n start xs fits
decode-encode_loop (suc rounds) xs m pos start deferred n le inside fits =
    elim (round rounds xs m pos start deferred) [
      | ends e ↦ rw e (decode-finish n start xs (rw e at fits))
      | skips again room e ↦ rw e (
          decode-encode_loop rounds xs (insert pos (hash3 xs pos) m) (pos + 1) start again n
            (omega arith) (omega arith) (rw e at fits))
      | jumps best room found e ↦
          let (match, long) = find_best-IsMatch m xs pos (hash3 xs pos) best room found in
          rw e (
            after_jump start pos xs best n _ le match long (rw e at fits) (λ k.
              decode-encode_loop rounds xs
                (insert_range (min (pos + best.1) (length xs - 2) - pos) xs pos m) (pos + best.1)
                (pos + best.1) false k (omega arith) (match.inside)))
    ]

abbrev pub whole : List ℕ → List ℕ
whole xs = to_le 4 (length xs) ++ encode_loop (length xs) xs new 0 0 false

decode-whole :
    (xs : List ℕ) → length xs ≤ max_lz77_input_size → lz77_decode (whole xs) (length xs) ≡ ok xs
unfolding lz77_decode
decode-whole xs h =
    let body : List ℕ = encode_loop (length xs) xs new 0 0 false in
    let word : length (to_le 4 (length xs)) ≡ 4 = length-to_le 4 (length xs) in
    let size : from_le (to_le 4 (length xs)) ≡ length xs =
      from_le-to_le 4 (length xs) (omega arith) in
    let long : leb 4 (length (whole xs)) ≡ true =
      ground (arith, length-append (to_le 4 (length xs)) body, word) in
    let same : (length xs == length xs) ≡ true = ground arith in
    let small : leb (length xs) max_lz77_input_size ≡ true = ground arith in
    rw (take-append 4 (to_le 4 (length xs)) body word, size)
      (rw (long, same)
        (rw small (
          rw (drop-append 4 (to_le 4 (length xs)) body word) (
            decode-encode_loop (length xs) xs new 0 0 false (length (whole xs)) (omega arith)
              (omega arith) (omega (arith, length-append (to_le 4 (length xs)) body))))))

-- For every byte string, `lz77_encode` either declines or returns fewer bytes than it was given, from
-- which `lz77_decode`, told the length of the data, makes the data again.
pub lz77_decode-lz77_encode :
    (xs : List ℕ)
    → (lz77_encode xs ≡ none)
      ⊎ ((ys : List ℕ) × (lz77_encode xs ≡ some ys)
          × (length ys < length xs)
          × (lz77_decode ys (length xs) ≡ ok xs))
lz77_decode-lz77_encode xs =
    elim (Bool-cases (ltb (length xs) min_match || ltb max_lz77_input_size (length xs))) [
      | inl out ↦ inl (unfold lz77_encode in rw out)
      | inr fits ↦ elim (Bool-cases (ltb (length (whole xs)) (length xs))) [
        | inr large ↦ inl (unfold lz77_encode in rw (fits, large))
        | inl small ↦ inr (
          whole xs,
          unfold lz77_encode in rw (fits, small),
          ground arith,
          decode-whole xs (ground arith),
        )
      ]
    ]
