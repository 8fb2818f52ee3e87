-- ===== src/Coding/Rans/Intervals.antt =====
-- One symbol: the interval that the encoder narrows to is the one that the decoder's code lies in.
use aether_arch.Base.{
  ℕ, ◌+◌, ◌-◌, ◌*◌, ◌/◌, ◌%◌, ◌^◌, ◌≤◌, ◌<◌, ◌≡◌, refl, sym, ap, List, arith, IsBytes,
}
use mathlib.Core.Path.{subst}
use native.Mathlib.Nat.{mul-le-mul_right, le-div_iff_mul-le, div-lt_iff_lt-mul, div-mul-le_self}
use aether_arch.Entropy.{prob_total}
use aether_arch.Coding.Rans.Encoder
use aether_arch.Coding.Rans.Encoder.{RangeEncoder}
use aether_arch.Coding.Rans.Decoder
use aether_arch.Coding.Rans.Decoder.{RangeDecoder}
use aether_arch.Coding.Rans.Value.{written, value, IsSound}
use aether_arch.Coding.Rans.Window.{IsWithin-narrow}
use aether_arch.Coding.Rans.Steps.{IsReady, Leads, IsBehind}
use aether_arch.Coding.Rans.Loops.{Clean, Kept, renormalize-Kept}

module _ (e : RangeEncoder) (lo hi : ℕ) (ready : IsReady e) (order : lo < hi)
    (inside : hi ≤ prob_total) where
  abbrev r : ℕ
  r = e.range / prob_total

  abbrev pub narrowed : RangeEncoder
  narrowed = Encoder.narrow lo hi e

  -- The width of the interval, and that it lies in the range.
  record Parts : Type 0 where
    pub many : 512 ≤ r
    pub sum : lo * r + (hi - lo) * r ≡ hi * r
    pub upper : hi * r ≤ e.range
    pub some_width : r ≤ (hi - lo) * r
    pub exact : (hi - lo) * r % 2 ^ 32 ≡ (hi - lo) * r

  parts : Parts
  parts =
      let many : 512 ≤ r = omega (arith, ready.wide) in
      let split : hi ≡ lo + (hi - lo) = omega (arith, order) in
      let sum : lo * r + (hi - lo) * r ≡ hi * r = omega (arith, ap (λ (t : ℕ). t * r) split) in
      let upper : hi * r ≤ e.range =
        omega (arith, mul-le-mul_right r inside, div-mul-le_self e.range prob_total) in
      let one : 1 ≤ hi - lo = omega (arith, order) in
      record {
        many = many;
        sum = sum;
        upper = upper;
        some_width = omega (arith, mul-le-mul_right r one);
        exact = omega (arith, sum, upper, ready.fits);
      }

  narrow-IsSound : IsSound narrowed.range narrowed
  unfolding Encoder.narrow
  narrow-IsSound = record {
    clean = ready.sound.clean;
    bytes = ready.sound.bytes;
    pending = ready.sound.pending;
    cache_byte = ready.sound.cache_byte;
    open_room = omega (arith, parts.exact, parts.some_width, parts.many);
    one_carry = omega (arith, parts.exact, parts.sum, parts.upper, ready.sound.one_carry);
    no_wrap = λ full. omega (arith, parts.exact, parts.sum, parts.upper, ready.sound.no_wrap full);
  }

  pub narrow_fits : (narrowed.range < 2 ^ 32) × (512 ≤ narrowed.range)
  unfolding Encoder.narrow
  narrow_fits = (
    omega (arith, parts.exact, parts.sum, parts.upper, ready.fits),
    omega (arith, parts.exact, parts.some_width, parts.many),
  )

  narrow-Leads : (stream : List ℕ) → Leads stream narrowed → Leads stream e
  unfolding Encoder.narrow
  narrow-Leads stream w =
      IsWithin-narrow stream (written e + 4) (value e) e.range (lo * r) ((hi - lo) * r)
        (omega (arith, parts.sum, parts.upper))
        (record {
          enough = w.enough;
          above = omega (arith, w.above);
          below = omega (arith, w.below, parts.exact);
        })

  module _ (stream : List ℕ) (d : RangeDecoder) (w : Leads stream narrowed)
      (follows : IsBehind stream e d) where
    code_bounds : (lo * r ≤ d.code) × (d.code < hi * r)
    unfolding Encoder.narrow
    code_bounds = (
      omega (arith, w.above, follows.code),
      omega (arith, w.below, follows.code, parts.exact, parts.sum),
    )

    decode_freq_lem :
        ((Decoder.decode_freq d).0 ≡ r)
        × (lo ≤ (Decoder.decode_freq d).1)
        × ((Decoder.decode_freq d).1 < hi)
    unfolding Decoder.decode_freq
    decode_freq_lem =
        let positive : 0 < r = omega (arith, parts.many) in
        let same : d.range / prob_total ≡ r = ap (λ (k : ℕ). k / prob_total) follows.range in
        let least : lo ≤ d.code / r = (le-div_iff_mul-le positive).1 code_bounds.0 in
        let most : d.code / r < hi = (div-lt_iff_lt-mul positive).1 code_bounds.1 in
        let quotient : d.code / (d.range / prob_total) ≡ d.code / r =
          ap (λ (k : ℕ). d.code / k) same in
        (same, omega (arith, quotient, least, order, inside), omega (arith, quotient, most))

    narrow-IsBehind : IsBehind stream narrowed (Decoder.narrow r lo hi d)
    unfolding Encoder.narrow Decoder.narrow
    narrow-IsBehind = record {
      range = refl;
      rest = follows.rest;
      code = omega (arith, follows.code, code_bounds, parts.upper, ready.fits);
      no_overread = follows.no_overread;
    }

  module _ (clean : Clean (Encoder.encode_interval lo hi e)) where
    -- What a symbol keeps, with the decoder's move.
    pub encode_interval-Kept :
        Kept narrowed (Encoder.encode_interval lo hi e) (Decoder.renormalize 3)
    unfolding Encoder.encode_interval
    encode_interval-Kept =
        renormalize-Kept 3 narrowed narrow-IsSound narrow_fits.0 (omega (arith, narrow_fits.1))
          clean

    pub encode_interval-Leads :
        (stream : List ℕ)
        → IsBytes stream
        → Leads stream (Encoder.encode_interval lo hi e)
        → Leads stream e
    encode_interval-Leads stream h w = narrow-Leads stream (encode_interval-Kept.leads stream h w)

    -- The decoder's frequency lies in the interval, and by the interval it catches up.
    pub encode_interval-IsBehind :
        (stream : List ℕ) (d : RangeDecoder)
        → IsBytes stream
        → Leads stream (Encoder.encode_interval lo hi e)
        → IsBehind stream e d
        → (lo ≤ (Decoder.decode_freq d).1)
          × ((Decoder.decode_freq d).1 < hi)
          × IsBehind stream
              (Encoder.encode_interval lo hi e)
              (Decoder.advance (Decoder.decode_freq d).0 lo hi d)
    unfolding Decoder.advance
    encode_interval-IsBehind stream d h w follows =
        let before = encode_interval-Kept.leads stream h w in
        let (same, least, most) = decode_freq_lem stream d before follows in
        let behind =
          encode_interval-Kept.behind stream (Decoder.narrow r lo hi d) h w
            (narrow-IsBehind stream d before follows) in
        (
          least,
          most,
          subst (λ k. IsBehind stream (Encoder.encode_interval lo hi e) (Decoder.advance k lo hi d))
              (sym same) behind,
        )
