-- ===== src/Coding/Rans/Window.antt =====
-- The stretch of numbers that the bytes of a stream so far leave open.
use aether_arch.Base.{
  ℕ, zero, suc, ◌+◌, ◌*◌, ◌≤◌, ◌<◌, ◌≡◌, refl, List, [], ◌∷◌, length, take, drop, get_or, arith,
  IsBytes,
}
use aether_arch.Coding.Rans.Value.{from_be}

take_one :
    (acc m : ℕ) (xs : List ℕ)
    → m < length xs
    → from_be acc (take (suc m) xs) ≡ from_be acc (take m xs) * 256 + get_or xs m 0
take_one acc m [] h = absurd (omega arith)
take_one acc zero (x ∷ xs) h = refl
take_one acc (suc m) (x ∷ xs) h = take_one (acc * 256 + x) m xs (omega arith)

pub drop_one : (m : ℕ) (xs : List ℕ) → m < length xs → drop m xs ≡ get_or xs m 0 ∷ drop (suc m) xs
drop_one m [] h = absurd (omega arith)
drop_one zero (x ∷ xs) h = refl
drop_one (suc m) (x ∷ xs) h = drop_one m xs (omega arith)

byte_at : (m : ℕ) (xs : List ℕ) → IsBytes xs → get_or xs m 0 < 256
byte_at m [] h = omega arith
byte_at zero (x ∷ xs) (hx, h) = hx
byte_at (suc m) (x ∷ xs) (hx, h) = byte_at m xs h

-- The first `m` bytes of the stream, as a number.
abbrev pub head_value : List ℕ → ℕ → ℕ
head_value stream m = from_be 0 (take m stream)

pub head_value-suc :
    (stream : List ℕ) (m : ℕ)
    → m < length stream
    → head_value stream (suc m) ≡ head_value stream m * 256 + get_or stream m 0
head_value-suc stream m h = take_one 0 m stream h

-- They lie from `v` on, below `v + room`.
pub record IsWithin (stream : List ℕ) (m v room : ℕ) : Type 0 where
  pub enough : m ≤ length stream
  pub above : v ≤ head_value stream m
  pub below : head_value stream m < v + room

-- A stretch that is 256 times as fine lies in the coarse one.
pub IsWithin-shift :
    (stream : List ℕ) (m v room : ℕ)
    → IsBytes stream
    → IsWithin stream (suc m) (v * 256) (room * 256)
    → IsWithin stream m v room
IsWithin-shift stream m v room h w =
    let lt : m < length stream = omega (arith, w.enough) in
    let e = head_value-suc stream m lt in
    let small = byte_at m stream h in
    record {
      enough = omega arith;
      above = omega (arith, w.above, e, small);
      below = omega (arith, w.below, e);
    }

pub IsWithin-narrow :
    (stream : List ℕ) (m v room offset room' : ℕ)
    → offset + room' ≤ room
    → IsWithin stream m (v + offset) room'
    → IsWithin stream m v room
IsWithin-narrow stream m v room offset room' le w = record {
  enough = w.enough;
  above = omega (arith, w.above);
  below = omega (arith, w.below, le);
}
