-- ===== src/Coding/BytePlane/RoundTrip.antt =====
-- The payload of a byte-plane block is decoded to the data.
use aether_arch.Base.{
  ℕ, zero, suc, ◌+◌, ◌-◌, ◌*◌, ◌/◌, ◌%◌, ◌^◌, ◌≤◌, ◌<◌, ◌≡◌, refl, sym, ◌∙◌, Bool, true, false,
  ◌||◌, List, [], ◌∷◌, ◌++◌, map, length, take, arith, All, IsBytes, if◌then◌else◌, ltb, leb, ◌==◌,
  ==_refl, le→leb, none, some, take_all, drop-append, length-append, length-drop, length-map,
}
use mathlib.Core.Path.{subst}
use aether_arch.Errors.{ok}
use aether_arch.Coding.BytePlane.{
  PlaneCoder, Entropies, BytePlaneWidth, two, four, planes, byteplane_split, byteplane_merge,
  should_delta, maybe_delta, mask, classify_planes, encode_planes, compressed, payload,
  byteplane_encode, decode_body, byteplane_decode, read_sizes, decode_planes, concat, total,
  write_sizes, max_decompressed_block_size, min_byteplane_size,
}
use aether_arch.Coding.BytePlane.Split.{IsPlanes, split-IsPlanes, byteplane_merge-byteplane_split}
use aether_arch.Coding.BytePlane.Delta.{length-maybe_delta}
use aether_arch.Coding.BytePlane.Planes.{
  decode_planes-encode_planes, mask_bound, encode_planes-bound, length-encode_planes,
  length-compressed,
}
use aether_arch.Coding.BytePlane.Sizes.{length-write_sizes, length-concat, read_sizes-write_sizes}

decode_header :
    (coder : PlaneCoder) (width : BytePlaneWidth) (flags : ℕ) (body : List ℕ) (size : ℕ)
    → byteplane_decode coder (planes width ∷ flags ∷ body) size
      ≡ decode_body coder width flags body size
unfolding byteplane_decode
decode_header coder two flags body size = refl
decode_header coder four flags body size = refl

planes_bound : (width : BytePlaneWidth) → planes width ≤ 4
planes_bound two = omega arith
planes_bound four = omega arith

tail_length :
    (n : ℕ) (width : BytePlaneWidth) → n - n / planes width * planes width ≡ n % planes width
tail_length n two = omega arith
tail_length n four = omega arith

power_low : (n : ℕ) → n ≤ 4 → 2 ^ n ≤ 16
power_low zero h = omega arith
power_low (suc zero) h = omega arith
power_low (suc (suc zero)) h = omega arith
power_low (suc (suc (suc zero))) h = omega arith
power_low (suc (suc (suc (suc n)))) h =
    let e : suc (suc (suc (suc n))) ≡ 4 = omega arith in rw e (omega arith)

mask_low : (bs : List Bool) → length bs ≤ 4 → mask bs < 16
mask_low bs h = omega (arith, mask_bound bs, power_low (length bs) h)

some_inv :
    (a b c : Bool) (v ys : List ℕ)
    → (if a then none else if b then none else if c then none else some v) ≡ some ys
    → (a ≡ false) × (c ≡ false) × (v ≡ ys)
some_inv a b c v ys h = ground arith

not_leb : (a b : ℕ) → leb a b ≡ false → b < a
not_leb a b h = ground arith

within_limits : (n low high : ℕ) → (ltb n low || ltb high n) ≡ false → n ≤ high
within_limits n low high h = ground arith

deltas_bound :
    (entropies : Entropies) (n limit : ℕ) (qs : List (List ℕ))
    → n ≤ limit
    → All (λ q. length q ≡ n) qs
    → All (λ p. length p ≤ limit) (map (maybe_delta entropies) qs)
deltas_bound entropies n limit [] small h = tt
deltas_bound entropies n limit (q ∷ qs) small (len, h) =
    (omega (arith, length-maybe_delta entropies q), deltas_bound entropies n limit qs small h)

elements_le : (n : ℕ) (width : BytePlaneWidth) → n / planes width ≤ n
elements_le n two = omega arith
elements_le n four = omega arith

module _ (coder : PlaneCoder) (entropies : Entropies) (bytes : List ℕ) (width : BytePlaneWidth)
    (h : IsBytes bytes) where
  abbrev qs : List (List ℕ)
  qs = (byteplane_split bytes width).0

  abbrev tail : List ℕ
  tail = (byteplane_split bytes width).1

  abbrev ps : List (List ℕ)
  ps = map (maybe_delta entropies) qs

  abbrev rc_flags : ℕ
  rc_flags = classify_planes entropies ps

  abbrev es : List (List ℕ)
  es = encode_planes coder rc_flags ps

  abbrev actual : ℕ
  actual = mask (compressed coder rc_flags ps)

  abbrev deltas : ℕ
  deltas = mask (map (should_delta entropies) qs)

  abbrev body : List ℕ
  body = write_sizes es ++ (concat es ++ tail)

  length-tail : length tail ≡ length bytes % planes width
  unfolding byteplane_split
  length-tail = omega (
    arith,
    length-drop (length bytes / planes width * planes width) bytes,
    tail_length (length bytes) width,
  )

  is_planes : IsPlanes (planes width) (length bytes / planes width) qs
  is_planes = split-IsPlanes bytes width h

  length-ps : length ps ≡ planes width
  length-ps = length-map qs (maybe_delta entropies) ∙ is_planes.count_eq

  length-es : length es ≡ planes width
  length-es = length-encode_planes coder rc_flags ps ∙ length-ps

  flags_split : ((actual + deltas * 16) % 16 ≡ actual) × ((actual + deltas * 16) / 16 ≡ deltas)
  flags_split =
      let low : actual < 16 =
        mask_low (compressed coder rc_flags ps)
          (omega (arith, length-compressed coder rc_flags ps, length-ps, planes_bound width)) in
      (omega arith, omega arith)

  es_bound :
      length bytes ≤ max_decompressed_block_size
      → All (λ e. length e ≤ max_decompressed_block_size) es
  es_bound small = encode_planes-bound coder rc_flags max_decompressed_block_size ps (
      deltas_bound entropies (length bytes / planes width) max_decompressed_block_size qs
        (omega (arith, elements_le (length bytes) width)) is_planes.lengths)

  length-body : length body ≡ 4 * planes width + total (map length es) + length bytes % planes width
  length-body = omega (
    arith,
    length-append (write_sizes es) (concat es ++ tail),
    length-append (concat es) tail,
    length-write_sizes es,
    length-concat es,
    length-es,
    length-tail,
  )

  decode_body_lem :
      length bytes ≤ max_decompressed_block_size
      → decode_body coder width (actual + deltas * 16) body (length bytes) ≡ ok bytes
  decode_body_lem small =
      let w = planes width in
      let n = length bytes / w in
      let sizes = map length es in
      let behind = concat es ++ tail in
      let header : length (write_sizes es) ≡ 4 * w =
        omega (arith, length-write_sizes es, length-es) in
      let whole = length-body in
      let has_sizes : leb (4 * w) (length body) ≡ true = le→leb _ _ (omega (arith, whole)) in
      let has_all : leb (4 * w + total sizes + length bytes % w) (length body) ≡ true =
        le→leb _ _ (omega (arith, whole)) in
      let read : read_sizes w body ≡ ok sizes =
        subst (λ k. read_sizes k body ≡ ok sizes) length-es
          (read_sizes-write_sizes es behind (es_bound small)) in
      let decoded : decode_planes coder n ((actual + deltas * 16) % 16)
            ((actual + deltas * 16) / 16) sizes behind
          ≡ ok (qs, tail) =
        decode_planes-encode_planes coder entropies n rc_flags _ _ qs tail is_planes.bytes
          is_planes.lengths (omega (arith, elements_le (length bytes) width, small)) flags_split.0
          flags_split.1 in
      let merged : byteplane_merge qs (take (length bytes % w) tail) ≡ bytes =
        rw (take_all (length bytes % w) tail (omega (arith, length-tail)))
          (byteplane_merge-byteplane_split bytes width h) in
      unfold decode_body in
      rw has_sizes (
        rw read (
          rw has_all (
            rw (drop-append (4 * w) (write_sizes es) behind header)
              (rw decoded (rw merged (rw (==_refl (length bytes))))))))

  encode_inv :
      (ys : List ℕ)
      → byteplane_encode coder entropies bytes width ≡ some ys
      → (length bytes ≤ max_decompressed_block_size)
        × (2 + 4 * planes width + total (map length es) + length tail < length bytes)
        × (planes width ∷ (actual + deltas * 16) ∷ body ≡ ys)
  encode_inv ys e =
      let (sized, smaller, same) =
        some_inv
          (ltb (length bytes) min_byteplane_size || ltb max_decompressed_block_size (length bytes))
          (rc_flags == 0)
          (leb (length bytes) (2 + 4 * planes width + total (map length es) + length tail))
          (planes width ∷ (actual + deltas * 16) ∷ body) ys
          (unfold byteplane_encode payload in e) in
      (within_limits _ _ _ sized, not_leb _ _ smaller, same)

-- Whatever the entropies decide, what `byteplane_encode` makes of bytes is smaller than they are, and
-- `byteplane_decode` with their number gives them back, with any block coder that decodes what it
-- encodes.
pub byteplane_decode-byteplane_encode :
    (coder : PlaneCoder) (entropies : Entropies) (bytes : List ℕ) (width : BytePlaneWidth)
    (ys : List ℕ)
    → IsBytes bytes
    → byteplane_encode coder entropies bytes width ≡ some ys
    → (byteplane_decode coder ys (length bytes) ≡ ok bytes) × (length ys < length bytes)
byteplane_decode-byteplane_encode coder entropies bytes width ys h e =
    let (small, smaller, same) = encode_inv coder entropies bytes width h ys e in
    rw (sym same) (
      decode_header coder width _ _ (length bytes)
          ∙ decode_body_lem coder entropies bytes width h small,
      omega (
        arith,
        length-body coder entropies bytes width h,
        length-tail coder entropies bytes width h,
      ),
    )
