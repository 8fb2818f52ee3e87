-- ===== src/Coding/Rans/Tests.antt =====
-- Runs of the range coder with the order-0 model, and its theorems at concrete inputs.
use aether_arch.Base.{ℕ, ◌+◌, ◌^◌, ◌<◌, ◌≡◌, refl, false, List, [], ◌∷◌, arith}
use aether_arch.Errors.{Result, ok, err}
use aether_arch.Entropy.Order0.{Order0Model, fresh, update, order0, query_cdf}
use aether_arch.Entropy.Order0.Model.{fresh-IsModel}
use aether_arch.Entropy.Order0.Lawful.{order0-IsLawful}
use aether_arch.Coding.Rans.Encoder.{RangeEncoder, shift_low}
use aether_arch.Coding.Rans.Blocks.{
  encode_block, decode_block, encode_block_continuing, decode_block_continuing,
}
use aether_arch.Coding.Rans.Value.{IsSound}
use aether_arch.Coding.Rans.Carry.{Shifted, shift_low-Shifted}
use aether_arch.Coding.Rans.RoundTrip.{decode_block_continuing-encode_block_continuing}
use aether_arch.Coding.Rans.Total.{decode_block-encode_block_total}

abbrev word : List ℕ
word = b'a' ∷ b'b' ∷ b'a' ∷ []

abbrev word_state : Order0Model
word_state = update (update (update fresh b'a') b'b') b'a'

small_room : 1000 < 2 ^ 24
small_room = omega arith

-- The encoded bytes, without the model's state.
abbrev bytes : Result (List ℕ × Order0Model) → List ℕ
bytes (ok found) = found.0
bytes (err e) = []

encode_runs : bytes (encode_block order0 word fresh) ≡ 0 ∷ 97 ∷ 98 ∷ 202 ∷ 206 ∷ 1 ∷ 224 ∷ []
unfolding encode_block fresh query_cdf update
encode_runs = refl

decode_block-encode_block_total_example :
    (ys : List ℕ) × (s : Order0Model) × (encode_block order0 word fresh ≡ ok (ys, s))
    × (decode_block order0 ys 3 fresh ≡ ok (word, s))
decode_block-encode_block_total_example =
    decode_block-encode_block_total order0 order0-IsLawful word fresh (omega arith) (omega arith)

block_encodes :
    encode_block_continuing order0 word fresh
    ≡ ok (0 ∷ 97 ∷ 98 ∷ 202 ∷ 206 ∷ 1 ∷ 224 ∷ [], word_state)
unfolding encode_block_continuing query_cdf update fresh
block_encodes = refl

decode_block_continuing-encode_block_continuing_example :
    decode_block_continuing order0 (0 ∷ 97 ∷ 98 ∷ 202 ∷ 206 ∷ 1 ∷ 224 ∷ []) 3 fresh
    ≡ ok (word, word_state)
decode_block_continuing-encode_block_continuing_example =
    decode_block_continuing-encode_block_continuing order0 order0-IsLawful word fresh word_state
      (0 ∷ 97 ∷ 98 ∷ 202 ∷ 206 ∷ 1 ∷ 224 ∷ []) fresh-IsModel (omega arith) (omega arith)
      block_encodes

-- A carry goes through two pending bytes.
abbrev carrying : RangeEncoder
carrying = record {
  low = 2 ^ 32 + 5;
  range = 2 ^ 20;
  cache = 7;
  cache_size = 3;
  output = 1 ∷ [];
  cache_overflow = false;
}

carrying-IsSound : IsSound 1000 carrying
carrying-IsSound = record {
  clean = refl;
  bytes = omega arith;
  pending = omega arith;
  cache_byte = omega arith;
  open_room = omega arith;
  one_carry = omega arith;
  no_wrap = λ full. omega arith;
}

carry_runs : (shift_low carrying).output ≡ 1 ∷ 8 ∷ 0 ∷ 0 ∷ []
unfolding shift_low
carry_runs = refl

carry_clean : (shift_low carrying).cache_overflow ≡ false
unfolding shift_low
carry_clean = refl

shift_low-Shifted_example : Shifted 1000 carrying carrying-IsSound small_room (shift_low carrying)
shift_low-Shifted_example = shift_low-Shifted 1000 carrying carrying-IsSound small_room carry_clean
