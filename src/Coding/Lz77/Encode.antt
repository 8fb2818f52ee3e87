-- ===== src/Coding/Lz77/Encode.antt =====
-- aether-core/src/coding/lz77_preprocess.rs: `lz77_encode`, `emit_sequence`, `emit_final_literals`.
-- The functions that push to `output` return the bytes that they push.
pub mod Rounds
use aether_arch.Base.{
  ℕ, zero, suc, ◌+◌, ◌-◌, ◌*◌, ◌/◌, ◌%◌, Bool, true, false, ◌||◌, List, [], ◌∷◌, ◌++◌, length, take,
  drop, ltb, leb, if◌then◌else◌, Option, none, some, min, to_le,
}
use aether_arch.Coding.Lz77.Finder.{
  MatchFinder, hash3, new, insert, find_best, min_match, max_lz77_input_size,
}

-- `while rem >= 255 { push(255); rem -= 255 } push(rem)`: `rem` rounds are enough, as each takes 255
-- off, and with no round left `rem` is 0.
unfoldable pub extension : ℕ → ℕ → List ℕ
extension zero rem = (rem % 256) ∷ []
extension (suc rounds) rem =
    let more = 255 ∷ extension rounds (rem - 255) in if leb 255 rem then more else (rem % 256) ∷ []

-- The bytes behind a nibble of 15.
unfoldable pub extend : ℕ → List ℕ
unfolding extension
extend n = if leb 15 n then extension (n - 15) (n - 15) else []

unfoldable pub emit_sequence : List ℕ → ℕ → ℕ → List ℕ
emit_sequence literals offset match_len =
    let match_minus3 = match_len - min_match in
    (min (length literals) 15 * 16 + min match_minus3 15)
    ∷ (extend (length literals)
        ++ (literals ++ ((offset % 256) ∷ (offset / 256 % 256) ∷ extend match_minus3)))

unfoldable pub emit_final_literals : List ℕ → List ℕ
emit_final_literals literals =
    (min (length literals) 15 * 16) ∷ (extend (length literals) ++ literals)

-- for i in pos..end { insert(i, hash3(data, i)) }, with `count` rounds left
unfoldable pub insert_range : ℕ → List ℕ → ℕ → MatchFinder → MatchFinder
insert_range zero xs i m = m
insert_range (suc count) xs i m = insert_range count xs (i + 1) (insert i (hash3 xs i) m)

-- Lazy matching: whether to take the match found at `pos`, of length `cur_len`.
unfoldable pub take_match : MatchFinder → List ℕ → ℕ → Bool → ℕ → Bool
take_match m xs pos deferred cur_len =
    if deferred
    then true
    else if ltb (pos + 3) (length xs)
    then elim (find_best m xs (pos + 1) (hash3 xs (pos + 1))) [
      | none ↦ true
      | some next ↦ leb next.1 (cur_len + 1)
    ]
    else true

unfoldable pub finish : List ℕ → ℕ → List ℕ
finish xs lit_start = elim (drop lit_start xs) [
  | [] ↦ []
  | x ∷ rest ↦ emit_final_literals (x ∷ rest)
]

-- The main loop, from `pos` on. Each round moves `pos` ahead, so `length xs` rounds are enough, and
-- with no round left `pos` is at the end.
unfoldable pub encode_loop : ℕ → List ℕ → MatchFinder → ℕ → ℕ → Bool → List ℕ
encode_loop zero xs m pos lit_start deferred = finish xs lit_start
encode_loop (suc rounds) xs m pos lit_start deferred =
    let hash = hash3 xs pos in
    let found = find_best m xs pos hash in
    let skip =
      λ (again : Bool). encode_loop rounds xs (insert pos hash m) (pos + 1) lit_start again in
    let jump = λ (best : ℕ × ℕ).
      let end = min (pos + best.1) (length xs - 2) in
      emit_sequence (take (pos - lit_start) (drop lit_start xs)) best.0 best.1
      ++ encode_loop rounds xs (insert_range (end - pos) xs pos m) (pos + best.1) (pos + best.1)
          false in
    if ltb (pos + 2) (length xs)
    then elim found [
      | none ↦ skip false
      | some best ↦ if take_match m xs pos deferred best.1 then jump best else skip true
    ]
    else finish xs lit_start

unfoldable pub lz77_encode : List ℕ → Option (List ℕ)
lz77_encode xs =
    let output = to_le 4 (length xs) ++ encode_loop (length xs) xs new 0 0 false in
    if ltb (length xs) min_match || ltb max_lz77_input_size (length xs)
    then none
    else if ltb (length output) (length xs)
    then some output
    else none
