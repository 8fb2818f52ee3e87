-- ===== src/Coding/Rans/Decoder.antt =====
-- aether-core/src/coding/rans.rs: `RangeDecoder`.
use aether_arch.Base.{
  ℕ, zero, suc, ◌+◌, ◌-◌, ◌*◌, ◌/◌, ◌%◌, ◌^◌, List, [], ◌∷◌, ltb, get_or, min, if◌then◌else◌,
}
use aether_arch.Entropy.{prob_total, find_symbol}
use aether_arch.Coding.Rans.{top}

-- `rest` is the input from `pos` on.
pub record RangeDecoder : Type 0 where
  pub code : ℕ
  pub range : ℕ
  pub rest : List ℕ
  pub eof_overread : ℕ

-- `code = (code << 8) | read_byte()`: behind the end of the input a zero is read, and counted.
unfoldable pub pull : RangeDecoder → RangeDecoder
pull d = elim d.rest [
  | [] ↦ record d { code = d.code * 256 % 2 ^ 32; eof_overread = d.eof_overread + 1 }
  | b ∷ rest ↦ record d { code = d.code * 256 % 2 ^ 32 + b; rest = rest }
]

unfoldable pub pull_many : ℕ → RangeDecoder → RangeDecoder
unfolding pull
pull_many zero d = d
pull_many (suc n) d = pull_many n (pull d)

unfoldable pub new : List ℕ → RangeDecoder
unfolding pull_many
new input = pull_many 5 (record { code = 0; range = 0xffff_ffff; rest = input; eof_overread = 0 })

unfoldable pub decode_freq : RangeDecoder → ℕ × ℕ
decode_freq d = let r = d.range / prob_total in (r, min (d.code / r) (prob_total - 1))

-- The loop of `advance` with its rounds: three are enough for a range that is not 0.
unfoldable pub renormalize : ℕ → RangeDecoder → RangeDecoder
unfolding pull
renormalize zero d = d
renormalize (suc rounds) d =
    let rest = renormalize rounds (record (pull d) { range = d.range * 256 % 2 ^ 32 }) in
    if ltb d.range top then rest else d

-- The part of `advance` before its loop; `-=` on a `u32` wraps.
unfoldable pub narrow : ℕ → ℕ → ℕ → RangeDecoder → RangeDecoder
narrow r cdf_lo cdf_hi d = record d {
  code = (d.code + 2 ^ 32 - cdf_lo * r % 2 ^ 32) % 2 ^ 32;
  range = (cdf_hi - cdf_lo) * r % 2 ^ 32;
}

unfoldable pub advance : ℕ → ℕ → ℕ → RangeDecoder → RangeDecoder
unfolding narrow renormalize
advance r cdf_lo cdf_hi d = renormalize 3 (narrow r cdf_lo cdf_hi d)

-- The symbol, and the decoder behind it.
unfoldable pub decode_cdf : List ℕ → RangeDecoder → ℕ × RangeDecoder
unfolding decode_freq advance find_symbol
decode_cdf cdf d =
    let found = decode_freq d in
    let symbol = find_symbol cdf found.1 in
    (symbol % 256, advance found.0 (get_or cdf symbol 0) (get_or cdf (symbol + 1) 0) d)
