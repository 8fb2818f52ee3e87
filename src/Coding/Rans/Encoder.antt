-- ===== src/Coding/Rans/Encoder.antt =====
-- aether-core/src/coding/rans.rs: `RangeEncoder`.
use aether_arch.Base.{
  ℕ, zero, suc, ◌+◌, ◌-◌, ◌*◌, ◌/◌, ◌%◌, ◌^◌, Bool, true, false, ◌||◌, not, List, [], ◌∷◌, ◌++◌,
  replicate, get_or, ltb, ◌==◌, if◌then◌else◌,
}
use aether_arch.Errors.{Result, ok, err, compression}
use aether_arch.Entropy.{prob_total}
use aether_arch.Coding.Rans.{top}

pub record RangeEncoder : Type 0 where
  pub low : ℕ
  pub range : ℕ
  pub cache : ℕ
  pub cache_size : ℕ
  pub output : List ℕ
  pub cache_overflow : Bool

abbrev pub start : RangeEncoder
start = record {
  low = 0;
  range = 0xffff_ffff;
  cache = 0;
  cache_size = 1;
  output = [];
  cache_overflow = false;
}

-- The cached byte and the bytes behind it, settled by the carry.
unfoldable pub flush_cache : RangeEncoder → RangeEncoder
flush_cache e =
    let low_hi = e.low / 2 ^ 32 % 256 in
    record e {
      output =
          e.output
          ++ (((e.cache + low_hi) % 256) ∷ replicate (e.cache_size - 1) ((255 + low_hi) % 256));
      cache = e.low / 2 ^ 24 % 256;
      cache_size = 0;
    }

-- The safety valve, above 16 MiB of pending bytes.
unfoldable pub spill_cache : RangeEncoder → RangeEncoder
spill_cache e = record e {
  cache_overflow = true;
  output = e.output ++ (e.cache ∷ replicate (e.cache_size - 2) 255);
  cache = e.low / 2 ^ 24 % 256;
  cache_size = 1;
}

unfoldable pub settle : RangeEncoder → RangeEncoder
unfolding flush_cache
settle e =
    if ltb (e.low % 2 ^ 32) 0xff00_0000 || not (e.low / 2 ^ 32 % 256 == 0) then flush_cache e else e

abbrev pub count : RangeEncoder → RangeEncoder
count e = record e { cache_size = e.cache_size + 1 }

abbrev pub shift : RangeEncoder → RangeEncoder
shift e = record e { low = e.low % 2 ^ 32 * 256 % 2 ^ 32 }

unfoldable pub shift_low : RangeEncoder → RangeEncoder
unfolding settle spill_cache
shift_low e =
    let counted = count (settle e) in
    shift (if ltb (2 ^ 24) counted.cache_size then spill_cache counted else counted)

-- `while self.range < TOP`, with its rounds: three are enough for a range that is not 0.
unfoldable pub renormalize : ℕ → RangeEncoder → RangeEncoder
unfolding shift_low
renormalize zero e = e
renormalize (suc rounds) e =
    let rest = renormalize rounds (record (shift_low e) { range = e.range * 256 % 2 ^ 32 }) in
    if ltb e.range top then rest else e

-- The part of `encode_interval` before its loop. `low` has 64 bits, which the sum cannot fill.
unfoldable pub narrow : ℕ → ℕ → RangeEncoder → RangeEncoder
narrow cdf_lo cdf_hi e =
    let r = e.range / prob_total in
    record e { low = e.low + cdf_lo * r; range = (cdf_hi - cdf_lo) * r % 2 ^ 32 }

unfoldable pub encode_interval : ℕ → ℕ → RangeEncoder → RangeEncoder
unfolding narrow renormalize
encode_interval cdf_lo cdf_hi e = renormalize 3 (narrow cdf_lo cdf_hi e)

unfoldable pub encode_cdf : ℕ → List ℕ → RangeEncoder → RangeEncoder
unfolding encode_interval
encode_cdf symbol cdf e = encode_interval (get_or cdf symbol 0) (get_or cdf (symbol + 1) 0) e

unfoldable pub flush : ℕ → RangeEncoder → RangeEncoder
unfolding shift_low
flush zero e = e
flush (suc n) e = flush n (shift_low e)

unfoldable pub finish : RangeEncoder → Result (List ℕ)
unfolding flush
finish e = if (flush 5 e).cache_overflow then err compression else ok (flush 5 e).output
