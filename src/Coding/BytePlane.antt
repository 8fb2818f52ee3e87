-- ===== src/Coding/BytePlane.antt =====
-- aether-core/src/coding/byteplane_preprocess.rs: the bytes of wide elements in planes of their own.
pub mod Split
pub mod Delta
pub mod Planes
pub mod Sizes
pub mod RoundTrip
pub mod Coder
mod Tests
use aether_arch.Base.{
  ℕ, zero, suc, ◌+◌, ◌-◌, ◌*◌, ◌/◌, ◌%◌, ◌≤◌, ◌≡◌, Bool, true, false, ◌&&◌, ◌||◌, List, [], ◌∷◌,
  ◌++◌, map, length, replicate, get_or, take, drop, ltb, leb, ◌==◌, if◌then◌else◌, Option, none,
  some, to_le, from_le, IsBytes,
}
use aether_arch.Errors.{Result, ok, err, decompression, resource_limit_exceeded, ◌>>=◌, ◌>>◌, guard}

abbrev pub max_decompressed_block_size : ℕ
max_decompressed_block_size = 64 * 1024 * 1024

abbrev pub min_byteplane_size : ℕ
min_byteplane_size = 64

pub data BytePlaneWidth : Type 0 where
  two four : BytePlaneWidth

-- `self as usize`
abbrev pub planes : BytePlaneWidth → ℕ
planes two = 2
planes four = 4

unfoldable pub from_u8 : ℕ → Option BytePlaneWidth
from_u8 v = if v == 2 then some two else if v == 4 then some four else none

-- Byte `j` of an element goes to plane `j`.
unfoldable pub push_element : List ℕ → List (List ℕ) → List (List ℕ)
push_element (b ∷ bs) (p ∷ ps) = (b ∷ p) ∷ push_element bs ps
push_element bs ps = ps

-- `chunks_exact`, with the number of elements that are left.
unfoldable pub split_loop : ℕ → ℕ → List ℕ → List (List ℕ)
unfolding push_element
split_loop zero w bytes = replicate w []
split_loop (suc n) w bytes = push_element (take w bytes) (split_loop n w (drop w bytes))

-- The planes, and the tail.
unfoldable pub byteplane_split : List ℕ → BytePlaneWidth → List (List ℕ) × List ℕ
unfolding split_loop
byteplane_split bytes width =
    let w = planes width in
    let n_elements = length bytes / w in
    (split_loop n_elements w bytes, drop (n_elements * w) bytes)

-- An index behind the end of a plane, at which the source panics, gives 0. The planes of a split are
-- all as long as the first, and so are those that the decoder makes.
unfoldable pub merge_loop : ℕ → List (List ℕ) → List ℕ
merge_loop zero ps = []
merge_loop (suc n) ps = map (λ p. get_or p 0 0) ps ++ merge_loop n (map (drop 1) ps)

unfoldable pub byteplane_merge : List (List ℕ) → List ℕ → List ℕ
unfolding merge_loop
byteplane_merge [] tail = tail
byteplane_merge (p ∷ ps) tail = merge_loop (length p) (p ∷ ps) ++ tail

-- `wrapping_sub` of the byte before.
unfoldable pub differences : ℕ → List ℕ → List ℕ
differences before [] = []
differences before (b ∷ bs) = (b + 256 - before) % 256 ∷ differences b bs

unfoldable pub delta_encode : List ℕ → List ℕ
unfolding differences
delta_encode [] = []
delta_encode (b ∷ bs) = b ∷ differences b bs

-- `wrapping_add` of the byte before, which has been decoded already.
unfoldable pub sums : ℕ → List ℕ → List ℕ
sums before [] = []
sums before (b ∷ bs) = (b + before) % 256 ∷ sums ((b + before) % 256) bs

unfoldable pub delta_decode : List ℕ → List ℕ
unfolding sums
delta_decode [] = []
delta_decode (b ∷ bs) = b ∷ sums b bs

-- The mask with bit `i` set where the `i`th of the values holds.
unfoldable pub mask : List Bool → ℕ
mask [] = 0
mask (b ∷ bs) = (if b then 1 else 0) + 2 * mask bs

-- The range coder with a fresh order-0 model, as a block of its own: what is decoded with the
-- length of the plane is the plane, which is no longer than a block.
pub record PlaneCoder : Type 0 where
  pub encode : List ℕ → Result (List ℕ)
  pub decode : List ℕ → ℕ → Result (List ℕ)
  pub decode-encode :
      (plane coded : List ℕ)
      → IsBytes plane
      → length plane ≤ max_decompressed_block_size
      → encode plane ≡ ok coded
      → decode coded (length plane) ≡ ok plane

-- What is decided by floating-point entropies: whether that of a plane is below the threshold, and
-- whether that of its differences is lower by the margin.
pub record Entropies : Type 0 where
  pub is_low : List ℕ → Bool
  pub is_gain : List ℕ → List ℕ → Bool

unfoldable pub should_delta : Entropies → List ℕ → Bool
unfolding delta_encode
should_delta entropies plane =
    if ltb (length plane) 16 then false else entropies.is_gain plane (delta_encode plane)

unfoldable pub maybe_delta : Entropies → List ℕ → List ℕ
unfolding should_delta delta_encode
maybe_delta entropies plane = if should_delta entropies plane then delta_encode plane else plane

unfoldable pub classify_planes : Entropies → List (List ℕ) → ℕ
unfolding mask
classify_planes entropies ps = mask (map (λ p. ltb 0 (length p) && entropies.is_low p) ps)

module _ (coder : PlaneCoder) where
  -- `encode_one`, with the mask shifted down to the bit of the plane.
  unfoldable pub encode_one : ℕ → List ℕ → List ℕ
  encode_one rc_flags plane =
      if rc_flags % 2 == 1
      then elim (coder.encode plane) [
        | ok coded ↦ if ltb (length coded) (length plane) then coded else plane
        | err e ↦ plane
      ]
      else plane

  unfoldable pub encode_planes : ℕ → List (List ℕ) → List (List ℕ)
  unfolding encode_one
  encode_planes rc_flags [] = []
  encode_planes rc_flags (p ∷ ps) = encode_one rc_flags p ∷ encode_planes (rc_flags / 2) ps

  -- Which planes did get smaller.
  unfoldable pub compressed : ℕ → List (List ℕ) → List Bool
  unfolding encode_one
  compressed rc_flags [] = []
  compressed rc_flags (p ∷ ps) =
      (ltb (length (encode_one rc_flags p)) (length p) && rc_flags % 2 == 1)
      ∷ compressed (rc_flags / 2) ps

  -- Decode one plane, with both masks shifted down to its bits.
  unfoldable pub decode_plane : ℕ → ℕ → ℕ → List ℕ → Result (List ℕ)
  unfolding delta_decode
  decode_plane n_elements rc_flags delta_flags plane_data = do
    plane ←
        if rc_flags % 2 == 1
        then coder.decode plane_data n_elements
        else if length plane_data == n_elements
        then ok plane_data
        else err decompression
    ok (if delta_flags % 2 == 1 then delta_decode plane else plane)

  -- The planes one after the other, and what is behind them.
  unfoldable pub decode_planes : ℕ → ℕ → ℕ → List ℕ → List ℕ → Result (List (List ℕ) × List ℕ)
  unfolding decode_plane
  decode_planes n_elements rc_flags delta_flags [] input = ok ([], input)
  decode_planes n_elements rc_flags delta_flags (size ∷ sizes) input = do
    plane ← decode_plane n_elements rc_flags delta_flags (take size input)
    (ps, rest) ← decode_planes n_elements (rc_flags / 2) (delta_flags / 2) sizes (drop size input)
    ok (plane ∷ ps, rest)

abbrev pub concat : List (List ℕ) → List ℕ
concat [] = []
concat (p ∷ ps) = p ++ concat ps

abbrev pub total : List ℕ → ℕ
total [] = 0
total (n ∷ ns) = n + total ns

abbrev pub write_sizes : List (List ℕ) → List ℕ
write_sizes [] = []
write_sizes (p ∷ ps) = to_le 4 (length p) ++ write_sizes ps

-- `w` sizes of four bytes, each within the limit on a block.
unfoldable pub read_sizes : ℕ → List ℕ → Result (List ℕ)
unfolding from_le
read_sizes zero input = ok []
read_sizes (suc w) input = do
  let size = from_le (take 4 input)
  guard (leb size max_decompressed_block_size) resource_limit_exceeded
  sizes ← read_sizes w (drop 4 input)
  ok (size ∷ sizes)

module _ (coder : PlaneCoder) where
  -- The payload, unless it is no smaller than the input.
  unfoldable pub payload : ℕ → ℕ → List (List ℕ) → List ℕ → ℕ → Option (List ℕ)
  unfolding to_le
  payload w flags encoded tail size =
      if leb size (2 + 4 * w + total (map length encoded) + length tail)
      then none
      else some (w ∷ flags ∷ (write_sizes encoded ++ (concat encoded ++ tail)))

  unfoldable pub byteplane_encode : Entropies → List ℕ → BytePlaneWidth → Option (List ℕ)
  unfolding byteplane_split should_delta maybe_delta mask classify_planes encode_planes compressed
      payload
  byteplane_encode entropies bytes width =
      let split = byteplane_split bytes width in
      let delta_flags = mask (map (should_delta entropies) split.0) in
      let delta_planes = map (maybe_delta entropies) split.0 in
      let rc_flags = classify_planes entropies delta_planes in
      let actual_rc_flags = mask (compressed coder rc_flags delta_planes) in
      if ltb (length bytes) min_byteplane_size || ltb max_decompressed_block_size (length bytes)
      then none
      else if rc_flags == 0
      then none
      else payload (planes width) (actual_rc_flags + delta_flags * 16)
          (encode_planes coder rc_flags delta_planes) split.1 (length bytes)

  -- The payload behind its two bytes of header.
  unfoldable pub decode_body : BytePlaneWidth → ℕ → List ℕ → ℕ → Result (List ℕ)
  unfolding decode_planes read_sizes byteplane_merge
  decode_body width flags body uncompressed_size = do
    let w = planes width
    let n_elements = uncompressed_size / w
    let tail_len = uncompressed_size % w
    guard (leb (4 * w) (length body)) decompression
    sizes ← read_sizes w body
    guard (leb (4 * w + total sizes + tail_len) (length body)) decompression
    (ps, rest) ← decode_planes coder n_elements (flags % 16) (flags / 16) sizes (drop (4 * w) body)
    let result = byteplane_merge ps (take tail_len rest)
    guard (length result == uncompressed_size) decompression
    ok result

  unfoldable pub byteplane_decode : List ℕ → ℕ → Result (List ℕ)
  unfolding from_u8 decode_body
  byteplane_decode (w ∷ flags ∷ body) uncompressed_size = elim (from_u8 w) [
    | none ↦ err decompression
    | some width ↦ decode_body width flags body uncompressed_size
  ]
  byteplane_decode short uncompressed_size = err decompression
