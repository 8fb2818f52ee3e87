-- ===== src/Coding/Rans/Carry.antt =====
-- `shift_low` multiplies the number written so far by 256, carries and pending bytes included.
use aether_arch.Base.{
  ℕ, zero, suc, ◌+◌, ◌-◌, ◌*◌, ◌/◌, ◌%◌, ◌^◌, ◌≤◌, ◌<◌, ◌≡◌, sym, ap, ◌∙◌, true, false, ◌∷◌, ◌++◌,
  length, replicate, length-append, arith, IsBytes, IsBytes-append, Bool-cases, inl, inr,
}
use mathlib.Core.Path.{subst}
use native.Mathlib.Decide.{dec_lt}
use aether_arch.Coding.Rans.Encoder.{RangeEncoder, flush_cache, shift_low}
use aether_arch.Coding.Rans.Value.{
  from_be, from_be-append, from_be-carry, replicate-more, length-replicate, written, prefix, value,
  IsSound, deferred, flushed, waits, shift_low-deferred, shift_low-flushed,
}

IsBytes-replicate : (k v : ℕ) → v < 256 → IsBytes (replicate k v)
IsBytes-replicate zero v h = tt
IsBytes-replicate (suc k) v h = (h, IsBytes-replicate k v h)

module _ (room : ℕ) (e : RangeEncoder) (sound : IsSound room e) (small : room < 2 ^ 24) where
  -- What a shift does to the number, to the count of bytes and to the room.
  abbrev pub Shifted : RangeEncoder → Type 0
  Shifted e' = (value e' ≡ value e * 256) × (written e' ≡ written e + 1) × IsSound (room * 256) e'

  below : e.low < 2 ^ 33
  below = omega (arith, sound.one_carry, sound.open_room)

  deferred-Shifted : waits e ≡ false → Shifted (deferred e)
  deferred-Shifted w =
      let high : 0xff00_0000 ≤ e.low % 2 ^ 32 = ground arith in
      let none : e.low / 2 ^ 32 % 256 ≡ 0 = ground arith in
      let low_eq : e.low < 2 ^ 32 = omega (arith, below) in
      let one_more : e.cache_size + 1 - 1 ≡ suc (e.cache_size - 1) = omega (arith, sound.pending) in
      let next : prefix (deferred e) ≡ prefix e * 256 + 255 =
        ap (λ k. from_be (from_be 0 e.output * 256 + e.cache) (replicate k 255)) one_more
        ∙ replicate-more (from_be 0 e.output * 256 + e.cache) (e.cache_size - 1) in
      (
        omega (arith, next, high, low_eq),
        omega arith,
        record {
          clean = sound.clean;
          bytes = sound.bytes;
          pending = omega arith;
          cache_byte = sound.cache_byte;
          open_room = omega (arith, sound.open_room);
          one_carry = omega (arith, high, low_eq, small);
          no_wrap = λ full. omega (arith, high, low_eq, sound.no_wrap full);
        },
      )

  settles : waits e ≡ true → e.low < 2 ^ 32 → e.low < 0xff00_0000
  settles w low =
      let none : e.low / 2 ^ 32 % 256 ≡ 0 = omega (arith, low) in
      let same : e.low % 2 ^ 32 ≡ e.low = omega (arith, low) in ground arith

  -- The bytes that a flush settles.
  settled :
      (hi : ℕ)
      → hi ≡ e.low / 2 ^ 32
      → from_be 0
          (e.output ++ (((e.cache + hi) % 256) ∷ replicate (e.cache_size - 1) ((255 + hi) % 256)))
        ≡ prefix e + hi
  settled hi h = elim (dec_lt e.low (2 ^ 32)) [
    | yes low ↦
        let zero_hi : hi ≡ 0 = omega (arith, low, h) in
        let first : (e.cache + hi) % 256 ≡ e.cache = omega (arith, zero_hi, sound.cache_byte) in
        let others : (255 + hi) % 256 ≡ 255 = omega (arith, zero_hi) in
        joined first others ∙ omega (arith, zero_hi)
    | no carry ↦
        let one_hi : hi ≡ 1 = omega (arith, carry, h, below) in
        let not_full : e.cache < 255 = elim (dec_lt e.cache 255) [
          | yes lt ↦ lt
          | no ge ↦
              let full : e.cache ≡ 255 = omega (arith, ge, sound.cache_byte) in
              absurd (omega (arith, carry, sound.no_wrap full, sound.open_room))
        ] in
        let first : (e.cache + hi) % 256 ≡ e.cache + 1 = omega (arith, one_hi, not_full) in
        let others : (255 + hi) % 256 ≡ 0 = omega (arith, one_hi) in
        let sum : from_be 0 e.output * 256 + (e.cache + 1)
            ≡ from_be 0 e.output * 256 + e.cache + 1 =
          omega arith in
        joined first others
        ∙ ap (λ a. from_be a (replicate (e.cache_size - 1) 0)) sum
        ∙ from_be-carry (from_be 0 e.output * 256 + e.cache) (e.cache_size - 1)
        ∙ ap (λ k. prefix e + k) (sym one_hi)
  ]
    where
      joined :
          {first others : ℕ}
          → (e.cache + hi) % 256 ≡ first
          → (255 + hi) % 256 ≡ others
          → from_be 0 (
              e.output
              ++ (((e.cache + hi) % 256) ∷ replicate (e.cache_size - 1) ((255 + hi) % 256)))
            ≡ from_be (from_be 0 e.output * 256 + first) (replicate (e.cache_size - 1) others)
      joined {first = first} p q =
          from_be-append 0 e.output _
          ∙ ap
              (λ b.
                from_be (from_be 0 e.output * 256 + b)
                  (replicate (e.cache_size - 1) ((255 + hi) % 256)))
              p
          ∙ ap (λ b. from_be (from_be 0 e.output * 256 + first) (replicate (e.cache_size - 1) b)) q

  flushed-Shifted : waits e ≡ true → Shifted (flushed e)
  unfolding flush_cache
  flushed-Shifted w =
      let hi = e.low / 2 ^ 32 % 256 in
      let hi_eq : hi ≡ e.low / 2 ^ 32 = omega (arith, below) in
      let bytes = replicate (e.cache_size - 1) ((255 + hi) % 256) in
      let old = e.output ++ (((e.cache + hi) % 256) ∷ bytes) in
      let before = settled hi hi_eq in
      let size : length old ≡ length e.output + e.cache_size = omega (
        arith,
        length-append e.output (((e.cache + hi) % 256) ∷ bytes),
        length-replicate (e.cache_size - 1) ((255 + hi) % 256),
        sound.pending,
      ) in
      let full_low : e.low / 2 ^ 24 % 256 ≡ 255 → e.low % 2 ^ 32 + room ≤ 2 ^ 32 = λ full.
        elim (dec_lt e.low (2 ^ 32)) [
          | yes low ↦ absurd (omega (arith, full, low, settles w low))
          | no carry ↦ omega (arith, carry, below, sound.one_carry)
        ] in
      (
        omega (arith, before, hi_eq),
        omega (arith, size),
        record {
          clean = sound.clean;
          bytes =
              IsBytes-append e.output (((e.cache + hi) % 256) ∷ bytes) sound.bytes (
                omega arith,
                IsBytes-replicate (e.cache_size - 1) ((255 + hi) % 256) (omega arith),
              );
          pending = omega arith;
          cache_byte = omega arith;
          open_room = omega (arith, sound.open_room);
          one_carry = omega (arith, small);
          no_wrap = λ full. omega (arith, full_low full);
        },
      )

-- Where no carry can pass the cached byte, `room` is below 2 ^ 24 and the safety valve stays closed,
-- `shift_low` multiplies by 256 the number that the bytes written, the pending ones and `low` stand
-- for, counts one byte more, and leaves 256 times the room open for a carry.
pub shift_low-Shifted :
    (room : ℕ) (e : RangeEncoder) (sound : IsSound room e) (small : room < 2 ^ 24)
    → (shift_low e).cache_overflow ≡ false
    → Shifted room e sound small (shift_low e)
shift_low-Shifted room e sound small clean = elim (Bool-cases (waits e)) [
  | inl w ↦
      subst (Shifted room e sound small) (sym (shift_low-flushed e clean w))
        (flushed-Shifted room e sound small w)
  | inr w ↦
      subst (Shifted room e sound small) (sym (shift_low-deferred e clean w))
        (deferred-Shifted room e sound small w)
]
