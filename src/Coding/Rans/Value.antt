-- ===== src/Coding/Rans/Value.antt =====
-- The number that the bytes written so far stand for, the pending ones and `low` included.
use aether_arch.Base.{
  ℕ, zero, suc, ◌+◌, ◌-◌, ◌*◌, ◌/◌, ◌%◌, ◌^◌, ◌≤◌, ◌<◌, ◌≡◌, refl, ap, ◌∙◌, Bool, true, false, ◌||◌,
  not, List, [], ◌∷◌, ◌++◌, length, replicate, arith, IsBytes, ltb, ◌==◌, if◌then◌else◌, Bool-cases,
  inl, inr,
}
use aether_arch.Coding.Rans.Encoder.{
  RangeEncoder, flush_cache, spill_cache, settle, count, shift, shift_low,
}

-- Bytes read as a big-endian number, behind what `acc` holds.
abbrev pub from_be : ℕ → List ℕ → ℕ
from_be acc [] = acc
from_be acc (b ∷ bs) = from_be (acc * 256 + b) bs

pub from_be-append :
    (acc : ℕ) (xs ys : List ℕ) → from_be acc (xs ++ ys) ≡ from_be (from_be acc xs) ys
from_be-append acc [] ys = refl
from_be-append acc (x ∷ xs) ys = from_be-append (acc * 256 + x) xs ys

-- A carry turns pending bytes of 255 into zeros.
pub from_be-carry :
    (acc k : ℕ) → from_be (acc + 1) (replicate k 0) ≡ from_be acc (replicate k 255) + 1
from_be-carry acc zero = refl
from_be-carry acc (suc k) =
    let e : (acc + 1) * 256 + 0 ≡ acc * 256 + 255 + 1 = omega arith in
    ap (λ a. from_be a (replicate k 0)) e ∙ from_be-carry (acc * 256 + 255) k

pub replicate-more :
    (acc k : ℕ) → from_be acc (replicate (suc k) 255) ≡ from_be acc (replicate k 255) * 256 + 255
replicate-more acc zero = refl
replicate-more acc (suc k) = replicate-more (acc * 256 + 255) k

pub length-replicate : (k v : ℕ) → length (replicate k v) ≡ k
length-replicate zero v = refl
length-replicate (suc k) v = ap suc (length-replicate k v)

-- `count` bytes are written or pending.
abbrev pub written : RangeEncoder → ℕ
written e = length e.output + e.cache_size

abbrev pub prefix : RangeEncoder → ℕ
prefix e = from_be (from_be 0 e.output * 256 + e.cache) (replicate (e.cache_size - 1) 255)

abbrev pub value : RangeEncoder → ℕ
value e = prefix e * 2 ^ 32 + e.low

-- With `room` numbers above `low` still open, no carry can pass the cached byte.
pub record IsSound (room : ℕ) (e : RangeEncoder) : Type 0 where
  pub clean : e.cache_overflow ≡ false
  pub bytes : IsBytes e.output
  pub pending : 0 < e.cache_size
  pub cache_byte : e.cache < 256
  pub open_room : 0 < room
  pub one_carry : e.low + room ≤ 2 ^ 33
  pub no_wrap : e.cache ≡ 255 → e.low + room ≤ 2 ^ 32

-- What `shift_low` makes of a state, without the safety valve.
abbrev pub deferred : RangeEncoder → RangeEncoder
deferred e = record e { cache_size = e.cache_size + 1; low = e.low % 2 ^ 32 * 256 % 2 ^ 32 }

abbrev pub flushed : RangeEncoder → RangeEncoder
flushed e = record (flush_cache e) { cache_size = 1; low = e.low % 2 ^ 32 * 256 % 2 ^ 32 }

abbrev pub waits : RangeEncoder → Bool
waits e = ltb (e.low % 2 ^ 32) 0xff00_0000 || not (e.low / 2 ^ 32 % 256 == 0)

-- The flag is never cleared.
pub shift_low-Clean :
    (e : RangeEncoder) → (shift_low e).cache_overflow ≡ false → e.cache_overflow ≡ false
unfolding shift_low settle flush_cache spill_cache
shift_low-Clean e h = ground arith

abbrev valve : RangeEncoder → RangeEncoder
valve e = shift (if ltb (2 ^ 24) e.cache_size then spill_cache e else e)

spilled : (e : RangeEncoder) {A : Type 0} → (shift (spill_cache e)).cache_overflow ≡ false → A
unfolding spill_cache
spilled e h = absurd (ground arith)

no_spill : (e : RangeEncoder) → (valve e).cache_overflow ≡ false → valve e ≡ shift e
no_spill e h = elim (Bool-cases (ltb (2 ^ 24) e.cache_size)) [
  | inl full ↦ spilled e (rw full at h)
  | inr small ↦ rw small
]

settle_deferred : (e : RangeEncoder) → waits e ≡ false → settle e ≡ e
unfolding settle
settle_deferred e w = rw w

settle_flushed : (e : RangeEncoder) → waits e ≡ true → settle e ≡ flush_cache e
unfolding settle
settle_flushed e w = rw w

pub shift_low-deferred :
    (e : RangeEncoder)
    → (shift_low e).cache_overflow ≡ false
    → waits e ≡ false
    → shift_low e ≡ deferred e
unfolding shift_low
shift_low-deferred e h w =
    no_spill (count (settle e)) h ∙ ap (λ x. shift (count x)) (settle_deferred e w)

pub shift_low-flushed :
    (e : RangeEncoder)
    → (shift_low e).cache_overflow ≡ false
    → waits e ≡ true
    → shift_low e ≡ flushed e
unfolding shift_low flush_cache
shift_low-flushed e h w =
    no_spill (count (settle e)) h ∙ ap (λ x. shift (count x)) (settle_flushed e w)
