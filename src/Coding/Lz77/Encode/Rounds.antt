-- ===== src/Coding/Lz77/Encode/Rounds.antt =====
-- The rounds that the encoder's loop is given are enough.
use aether_arch.Base.{ℕ, ◌+◌, ◌-◌, Bool, false, List, ◌++◌, length, take, drop, min}
use aether_arch.Coding.Lz77.Finder.{MatchFinder, hash3, insert}
use aether_arch.Coding.Lz77.Encode.{emit_sequence, insert_range, encode_loop}

module _ (rounds : ℕ) (xs : List ℕ) (m : MatchFinder) (pos start : ℕ) (deferred : Bool) where
  abbrev skip : Bool → List ℕ
  skip again = encode_loop rounds xs (insert pos (hash3 xs pos) m) (pos + 1) start again

  abbrev jump : ℕ × ℕ → List ℕ
  jump best =
      emit_sequence (take (pos - start) (drop start xs)) best.0 best.1
      ++ encode_loop rounds xs (insert_range (min (pos + best.1) (length xs - 2) - pos) xs pos m)
          (pos + best.1) (pos + best.1) false
