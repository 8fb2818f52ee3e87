-- ===== src/Coding/Lz77/Output.antt =====
-- `lz77_encode` writes bytes.
use aether_arch.Base.{
  ℕ, zero, suc, ◌+◌, ◌-◌, ◌/◌, ◌%◌, ◌≡◌, Bool, false, ◌||◌, List, [], ◌∷◌, ◌++◌, length, take, drop,
  to_le, to_le-IsBytes, ltb, leb, min, if_rule, some, arith, IsBytes, IsBytes-append, Bool-cases,
  inl, inr,
}
use aether_arch.Coding.Lz77.Finder.{MatchFinder, hash3, new, insert, min_match, max_lz77_input_size}
use mathlib.Core.Path.{subst}
use aether_arch.Coding.Lz77.RoundTrip.{round, ends, skips, jumps, whole}
use aether_arch.Coding.Lz77.Encode.{
  extension, extend, emit_sequence, emit_final_literals, insert_range, finish, encode_loop,
  lz77_encode,
}

take-IsBytes : (n : ℕ) (xs : List ℕ) → IsBytes xs → IsBytes (take n xs)
take-IsBytes zero xs h = tt
take-IsBytes (suc n) [] h = tt
take-IsBytes (suc n) (x ∷ xs) (first, h) = (first, take-IsBytes n xs h)

drop-IsBytes : (n : ℕ) (xs : List ℕ) → IsBytes xs → IsBytes (drop n xs)
drop-IsBytes zero xs h = h
drop-IsBytes (suc n) [] h = tt
drop-IsBytes (suc n) (x ∷ xs) (first, h) = drop-IsBytes n xs h

extension-IsBytes : (rounds rem : ℕ) → IsBytes (extension rounds rem)
unfolding extension
extension-IsBytes zero rem = (omega arith, tt)
extension-IsBytes (suc rounds) rem =
    if_rule IsBytes (leb 255 rem) (255 ∷ extension rounds (rem - 255)) ((rem % 256) ∷ [])
      (λ more. (omega arith, extension-IsBytes rounds (rem - 255))) (λ last. (omega arith, tt))

extend-IsBytes : (n : ℕ) → IsBytes (extend n)
unfolding extend
extend-IsBytes n =
    if_rule IsBytes (leb 15 n) (extension (n - 15) (n - 15)) []
      (λ more. extension-IsBytes (n - 15) (n - 15)) (λ none. tt)

emit_sequence-IsBytes :
    (literals : List ℕ) (offset match_len : ℕ)
    → IsBytes literals
    → IsBytes (emit_sequence literals offset match_len)
unfolding emit_sequence
emit_sequence-IsBytes literals offset match_len h =
    let rest = match_len - min_match in
    let behind = (offset % 256) ∷ (offset / 256 % 256) ∷ extend rest in
    let behind_bytes : IsBytes behind = (omega arith, (omega arith, extend-IsBytes rest)) in
    (
      omega arith,
      IsBytes-append (extend (length literals)) (literals ++ behind)
          (extend-IsBytes (length literals)) (IsBytes-append literals behind h behind_bytes),
    )

finish-IsBytes : (xs : List ℕ) (start : ℕ) → IsBytes xs → IsBytes (finish xs start)
unfolding finish emit_final_literals
finish-IsBytes xs start h = final (drop start xs) (drop-IsBytes start xs h)
  where
    final :
        (ys : List ℕ)
        → IsBytes ys
        → IsBytes (elim ys [ [] ↦ [] | y ∷ rest ↦ emit_final_literals (y ∷ rest) ])
    final [] hy = tt
    final (y ∷ rest) hy = (
      omega arith,
      IsBytes-append (extend (length (y ∷ rest))) (y ∷ rest) (extend-IsBytes (length (y ∷ rest)))
          hy,
    )

encode_loop-IsBytes :
    (rounds : ℕ) (xs : List ℕ) (m : MatchFinder) (pos start : ℕ) (deferred : Bool)
    → IsBytes xs
    → IsBytes (encode_loop rounds xs m pos start deferred)
encode_loop-IsBytes zero xs m pos start deferred h = unfold encode_loop in finish-IsBytes xs start h
encode_loop-IsBytes (suc rounds) xs m pos start deferred h =
    elim (round rounds xs m pos start deferred) [
      | ends e ↦ rw e (finish-IsBytes xs start h)
      | skips again room e ↦
          rw e (encode_loop-IsBytes rounds xs (insert pos (hash3 xs pos) m) (pos + 1) start again h)
      | jumps best room found e ↦
          let literals = take (pos - start) (drop start xs) in
          let rest =
            encode_loop-IsBytes rounds xs
              (insert_range (min (pos + best.1) (length xs - 2) - pos) xs pos m) (pos + best.1)
              (pos + best.1) false h in
          rw e (
            IsBytes-append (emit_sequence literals best.0 best.1) _
              (emit_sequence-IsBytes literals best.0 best.1
                (take-IsBytes (pos - start) (drop start xs) (drop-IsBytes start xs h)))
              rest)
    ]

pub lz77_encode-IsBytes : (xs ys : List ℕ) → IsBytes xs → lz77_encode xs ≡ some ys → IsBytes ys
unfolding lz77_encode
lz77_encode-IsBytes xs ys h done =
    let body = encode_loop (length xs) xs new 0 0 false in
    let out : IsBytes (whole xs) =
      IsBytes-append (to_le 4 (length xs)) body (to_le-IsBytes 4 (length xs))
        (encode_loop-IsBytes (length xs) xs new 0 0 false h) in
    elim (Bool-cases (ltb (length xs) min_match || ltb max_lz77_input_size (length xs))) [
      | inl outside ↦ absurd (cc (rw (lz77_encode, outside) at done))
      | inr fits ↦ elim (Bool-cases (ltb (length (whole xs)) (length xs))) [
        | inr large ↦ absurd (cc (rw (lz77_encode, fits, large) at done))
        | inl small ↦
            let e : whole xs ≡ ys = cc (rw (lz77_encode, fits, small) at done) in
            subst IsBytes e out
      ]
    ]
