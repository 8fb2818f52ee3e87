-- ===== src/Coding/Rans/Finish.antt =====
-- The flush at the end writes all of the number, and four bytes more than the encoder had counted.
use aether_arch.Base.{
  ℕ, zero, suc, ◌+◌, ◌*◌, ◌%◌, ◌^◌, ◌≡◌, refl, sym, ap, ◌∙◌, true, List, length, arith, IsBytes,
  take_all, if◌then◌else◌, Bool-cases, inl, inr,
}
use mathlib.Core.Path.{subst}
use aether_arch.Errors.{ok, err, compression}
use aether_arch.Coding.Rans.Encoder
use aether_arch.Coding.Rans.Encoder.{RangeEncoder, shift_low, flush}
use aether_arch.Coding.Rans.Value.{
  from_be, written, value, IsSound, waits, shift_low-Clean, shift_low-deferred, shift_low-flushed,
}
use aether_arch.Coding.Rans.Carry.{shift_low-Shifted}
use aether_arch.Coding.Rans.Window.{head_value}
use aether_arch.Coding.Rans.Steps.{IsReady, Leads}
use aether_arch.Coding.Rans.Loops.{Clean}

less_room : (room : ℕ) (e : RangeEncoder) → IsSound room e → IsSound 1 e
less_room room e s = record {
  clean = s.clean;
  bytes = s.bytes;
  pending = s.pending;
  cache_byte = s.cache_byte;
  open_room = omega arith;
  one_carry = omega (arith, s.one_carry, s.open_room);
  no_wrap = λ full. omega (arith, s.no_wrap full, s.open_room);
}

flush-Clean : (n : ℕ) (e : RangeEncoder) → Clean (flush n e) → Clean e
unfolding flush
flush-Clean zero e clean = clean
flush-Clean (suc n) e clean = shift_low-Clean e (flush-Clean n (shift_low e) clean)

shift_low_low :
    (e : RangeEncoder) → Clean (shift_low e) → (shift_low e).low ≡ e.low % 2 ^ 32 * 256 % 2 ^ 32
shift_low_low e clean = elim (Bool-cases (waits e)) [
  | inl w ↦ ap (λ (x : RangeEncoder). x.low) (shift_low-flushed e clean w)
  | inr w ↦ ap (λ (x : RangeEncoder). x.low) (shift_low-deferred e clean w)
]

-- A shift of nothing settles all pending bytes.
shift_low_zero :
    (e : RangeEncoder)
    → Clean (shift_low e)
    → e.low ≡ 0
    → (value (shift_low e) ≡ from_be 0 (shift_low e).output * 256 * 2 ^ 32)
      × ((shift_low e).cache_size ≡ 1)
shift_low_zero e clean none =
    let w : waits e ≡ true = ground arith in
    let same = shift_low-flushed e clean w in
    subst (λ (x : RangeEncoder). (value x ≡ from_be 0 x.output * 256 * 2 ^ 32) × (x.cache_size ≡ 1))
      (sym same) (unfold Encoder.flush_cache in omega (arith, none), refl)

record Shifts (n : ℕ) (e e' : RangeEncoder) : Type 0 where
  pub scaled : value e' ≡ value e * 256 ^ n
  pub counted : written e' ≡ written e + n
  pub sound : IsSound 1 e'

one_shift : (e : RangeEncoder) → IsSound 1 e → Clean (shift_low e) → Shifts 1 e (shift_low e)
one_shift e sound clean =
    let (scaled, counted, sound') = shift_low-Shifted 1 e sound (omega arith) clean in
    record {
      scaled = omega (arith, scaled);
      counted = counted;
      sound = less_room 256 (shift_low e) sound';
    }

finish_inv :
    (e : RangeEncoder) (stream : List ℕ)
    → Encoder.finish e ≡ ok stream
    → Clean (flush 5 e) × ((flush 5 e).output ≡ stream)
unfolding Encoder.finish
finish_inv e stream done = if_inv (flush 5 e) stream done
  where
    if_inv :
        (x : RangeEncoder) (stream : List ℕ)
        → (if x.cache_overflow then err compression else ok x.output) ≡ ok stream
        → Clean x × (x.output ≡ stream)
    if_inv x stream done = ground arith

-- Five shifts, of which the last settles everything.
flush_all :
    (e : RangeEncoder)
    → IsSound 1 e
    → Clean (flush 5 e)
    → (from_be 0 (flush 5 e).output ≡ value e)
      × (length (flush 5 e).output ≡ written e + 4)
      × IsBytes (flush 5 e).output
unfolding flush
flush_all e sound c5 =
    let e1 = shift_low e in
    let e2 = shift_low e1 in
    let e3 = shift_low e2 in
    let e4 = shift_low e3 in
    let c4 = shift_low-Clean e4 c5 in
    let c3 = shift_low-Clean e3 c4 in
    let c2 = shift_low-Clean e2 c3 in
    let c1 = shift_low-Clean e1 c2 in
    let s1 = one_shift e sound c1 in
    let s2 = one_shift e1 s1.sound c2 in
    let s3 = one_shift e2 s2.sound c3 in
    let s4 = one_shift e3 s3.sound c4 in
    let s5 = one_shift e4 s4.sound c5 in
    let none : e4.low ≡ 0 =
      omega (
        arith,
        shift_low_low e c1,
        shift_low_low e1 c2,
        shift_low_low e2 c3,
        shift_low_low e3 c4,
      ) in
    let (all, one) = shift_low_zero e4 c5 none in
    (
      omega (arith, s1.scaled, s2.scaled, s3.scaled, s4.scaled, s5.scaled, all),
      omega (arith, s1.counted, s2.counted, s3.counted, s4.counted, s5.counted, one),
      s5.sound.bytes,
    )

-- What `finish` returns stands for the encoder's number, and is four bytes longer than what it had
-- counted: the stream lies at the start of the stretch.
pub finish-Leads :
    (e : RangeEncoder) (stream : List ℕ)
    → IsReady e
    → Encoder.finish e ≡ ok stream
    → IsBytes stream × Leads stream e × (length stream ≡ written e + 4) × Clean e
finish-Leads e stream ready done =
    let (clean, same) = finish_inv e stream done in
    let (number, size, bytes) = flush_all e (less_room e.range e ready.sound) clean in
    let size' : length stream ≡ written e + 4 =
      subst (λ (xs : List ℕ). length xs ≡ written e + 4) same size in
    let number' : head_value stream (written e + 4) ≡ value e =
      ap (from_be 0) (take_all (written e + 4) stream (omega (arith, size')))
      ∙ subst (λ (xs : List ℕ). from_be 0 xs ≡ value e) same number in
    (
      subst IsBytes same bytes,
      record {
        enough = omega (arith, size');
        above = omega (arith, number');
        below = omega (arith, number', ready.sound.open_room);
      },
      size',
      flush-Clean 5 e clean,
    )

pub finish-Clean : (e : RangeEncoder) (stream : List ℕ) → Encoder.finish e ≡ ok stream → Clean e
finish-Clean e stream done = flush-Clean 5 e (finish_inv e stream done).0
