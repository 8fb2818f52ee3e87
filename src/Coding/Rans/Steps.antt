-- ===== src/Coding/Rans/Steps.antt =====
-- Encoder and decoder move in step: each shift of the one is a byte for the other.
use aether_arch.Base.{
  ℕ, zero, suc, ◌+◌, ◌*◌, ◌%◌, ◌^◌, ◌≤◌, ◌<◌, ◌≡◌, refl, sym, ap, ◌∙◌, false, List, ◌∷◌, length,
  drop, get_or, arith, IsBytes, ltb, lt→ltb,
}
use mathlib.Core.Path.{subst}
use aether_arch.Coding.Rans.{top}
use aether_arch.Coding.Rans.Encoder
use aether_arch.Coding.Rans.Encoder.{RangeEncoder, shift_low}
use aether_arch.Coding.Rans.Decoder
use aether_arch.Coding.Rans.Decoder.{RangeDecoder, pull}
use aether_arch.Coding.Rans.Value.{written, value, IsSound}
use aether_arch.Coding.Rans.Carry.{shift_low-Shifted}
use aether_arch.Coding.Rans.Window.{IsWithin, IsWithin-shift, head_value, head_value-suc, drop_one}

pub record IsReady (e : RangeEncoder) : Type 0 where
  pub sound : IsSound e.range e
  pub wide : top ≤ e.range
  pub fits : e.range < 2 ^ 32

-- The stream lies in the stretch that the encoder leaves open.
abbrev pub Leads : List ℕ → RangeEncoder → Type 0
Leads stream e = IsWithin stream (written e + 4) (value e) e.range

-- The decoder has read what the encoder had written, and four bytes more; its code is how far the
-- stream lies above the encoder's number.
pub record IsBehind (stream : List ℕ) (e : RangeEncoder) (d : RangeDecoder) : Type 0 where
  pub range : d.range ≡ e.range
  pub rest : d.rest ≡ drop (written e + 4) stream
  pub code : d.code + value e ≡ head_value stream (written e + 4)
  pub no_overread : d.eof_overread ≡ 0

-- One round of either loop.
abbrev pub encoder_round : RangeEncoder → RangeEncoder
encoder_round e = record (shift_low e) { range = e.range * 256 % 2 ^ 32 }

abbrev pub decoder_round : RangeDecoder → RangeDecoder
decoder_round d = record (pull d) { range = d.range * 256 % 2 ^ 32 }

module _ (n : ℕ) (e : RangeEncoder) where
  pub encoder_more :
      e.range < top → Encoder.renormalize (suc n) e ≡ Encoder.renormalize n (encoder_round e)
  unfolding Encoder.renormalize
  encoder_more h = rw (lt→ltb e.range top h)

  pub encoder_done : top ≤ e.range → Encoder.renormalize n e ≡ e
  unfolding Encoder.renormalize
  encoder_done h = done n
    where
      done : (n : ℕ) → Encoder.renormalize n e ≡ e
      done zero = refl
      done (suc n) = let no_more : ltb e.range top ≡ false = ground arith in rw no_more

module _ (n : ℕ) (d : RangeDecoder) where
  pub decoder_more :
      d.range < top → Decoder.renormalize (suc n) d ≡ Decoder.renormalize n (decoder_round d)
  unfolding Decoder.renormalize
  decoder_more h = rw (lt→ltb d.range top h)

  pub decoder_done : top ≤ d.range → Decoder.renormalize n d ≡ d
  unfolding Decoder.renormalize
  decoder_done h = done n
    where
      done : (n : ℕ) → Decoder.renormalize n d ≡ d
      done zero = refl
      done (suc n) = let no_more : ltb d.range top ≡ false = ground arith in rw no_more

pub sound_range :
    (room range : ℕ) (e : RangeEncoder) → IsSound room e → IsSound room (record e { range = range })
sound_range room range e s = record {
  clean = s.clean;
  bytes = s.bytes;
  pending = s.pending;
  cache_byte = s.cache_byte;
  open_room = s.open_room;
  one_carry = s.one_carry;
  no_wrap = s.no_wrap;
}

-- A decoder that pulls one byte of a stream.
pull_byte :
    (d : RangeDecoder) (b : ℕ) (rest : List ℕ)
    → d.rest ≡ b ∷ rest
    → pull d ≡ record d { code = d.code * 256 % 2 ^ 32 + b; rest = rest }
unfolding pull
pull_byte d b rest h = rw h

pub moved :
    {stream : List ℕ} {m m' v v' room room' : ℕ}
    → m ≡ m'
    → v ≡ v'
    → room ≡ room'
    → IsWithin stream m v room
    → IsWithin stream m' v' room'
moved {stream} {m} {m'} {v} {v'} {room} {room'} em ev er w =
    let same = ap (head_value stream) em in
    record {
      enough = omega (arith, em, w.enough);
      above = omega (arith, ev, same, w.above);
      below = omega (arith, ev, er, same, w.below);
    }

module _ (e : RangeEncoder) (sound : IsSound e.range e) (narrow : e.range < top)
    (clean : (shift_low e).cache_overflow ≡ false) where
  facts :
      (value (shift_low e) ≡ value e * 256)
      × (written (shift_low e) ≡ written e + 1)
      × IsSound (e.range * 256) (shift_low e)
  facts = shift_low-Shifted e.range e sound narrow clean

  -- One byte more.
  counted : written (shift_low e) + 4 ≡ suc (written e + 4)
  counted = omega (arith, facts.1)

  exact : e.range * 256 % 2 ^ 32 ≡ e.range * 256
  exact = omega (arith, narrow)

  pub encoder_round-IsSound : IsSound (encoder_round e).range (encoder_round e)
  encoder_round-IsSound =
      subst (λ room. IsSound room (encoder_round e)) (sym exact)
        (sound_range (e.range * 256) (e.range * 256 % 2 ^ 32) (shift_low e) facts.2)

  pub encoder_round-Leads :
      (stream : List ℕ) → IsBytes stream → Leads stream (encoder_round e) → Leads stream e
  encoder_round-Leads stream h w =
      IsWithin-shift stream (written e + 4) (value e) e.range h (moved counted facts.0 exact w)

  pub encoder_round-IsBehind :
      (stream : List ℕ) (d : RangeDecoder)
      → IsBytes stream
      → Leads stream (encoder_round e)
      → IsBehind stream e d
      → IsBehind stream (encoder_round e) (decoder_round d)
  encoder_round-IsBehind stream d h w follows =
      let m = written e + 4 in
      let byte = get_or stream m 0 in
      let lead = encoder_round-Leads stream h w in
      let more : m < length stream = omega (arith, ap (λ (k : ℕ). k) counted, w.enough) in
      let pulled = pull_byte d byte (drop (suc m) stream) (follows.rest ∙ drop_one m stream more) in
      let room : d.code < e.range = omega (arith, follows.code, lead.below) in
      subst (λ p. IsBehind stream (encoder_round e) (record p { range = d.range * 256 % 2 ^ 32 }))
        (sym pulled)
        (record {
          range = ap (λ r. r * 256 % 2 ^ 32) follows.range;
          rest = ap (λ k. drop k stream) (sym counted);
          code = omega (
            arith,
            facts.0,
            follows.code,
            head_value-suc stream m more,
            ap (head_value stream) counted,
            room,
            narrow,
          );
          no_overread = follows.no_overread;
        })
