-- ===== src/Coding/Bwt/Framing.antt =====
-- The transform with move-to-front, framed and with its parts, and back.
use mathlib.Core.Path.{Path, subst}
use aether_arch.Base.{
  Option-cases, ℕ, ◌+◌, ◌^◌, ◌≤◌, ◌<◌, ◌≡◌, refl, sym, ap, ◌∙◌, true, List, [], ◌∷◌, ◌++◌, length,
  take, drop, take-append, drop-append, length-append, to_le, length-to_le, from_le-to_le, ltb, leb,
  ◌==◌, Option, some, arith, IsBytes, Bool-cases, inl, inr, ==_refl,
}
use aether_arch.Errors.{Result, ok}
use aether_arch.Coding.Mtf.{mtf_encode}
use aether_arch.Coding.Mtf.RoundTrip.{mtf_decode-mtf_encode, mtf_encode_shape}
use aether_arch.Coding.BytePlane.{max_decompressed_block_size}
use aether_arch.Coding.Bwt.{
  max_bwt_input_size, bwt_encode, bwt_decode, bwt_mtf_encode_parts, bwt_mtf_decode_parts,
  bwt_mtf_encode, bwt_mtf_decode, two_chain_min, max_packed_lf,
}
use aether_arch.Coding.Bwt.Rotations.{IsSuffixArray}
use aether_arch.Coding.Bwt.RoundTrip.{bwt_encode-Inverts}

parts_of :
    (sais : List ℕ → Option (List ℕ)) (text bwt : List ℕ) (primary : ℕ)
    → bwt_encode sais text ≡ some (bwt, primary)
    → bwt_mtf_encode_parts sais text ≡ ok (primary, mtf_encode bwt)
unfolding bwt_mtf_encode_parts
parts_of sais text bwt primary e = rw (bwt_mtf_encode_parts, e) refl

parts :
    (sais : List ℕ → Option (List ℕ)) (text sa : List ℕ)
    → sais (text ++ text) ≡ some sa
    → IsSuffixArray (text ++ text) sa
    → IsBytes text
    → length text ≤ max_bwt_input_size
    → (primary : ℕ) × (ranks : List ℕ) × (bwt_mtf_encode_parts sais text ≡ ok (primary, ranks))
      × (length ranks ≡ length text)
      × IsBytes ranks
      × (primary ≤ length text)
      × (bwt_mtf_decode_parts primary ranks (length text) ≡ ok text)
unfolding bwt_mtf_decode_parts bwt_decode
parts sais text sa found h bytes fits =
    let (bwt, primary, e, size, primary_small, small_bytes, back) =
      bwt_encode-Inverts sais text sa found h bytes fits in
    let (ranks_bytes, count_ranks) = mtf_encode_shape bwt small_bytes in
    let room : leb (length text) max_decompressed_block_size ≡ true = ground (arith, fits) in
    let same_size : (length text == length text) ≡ true = ==_refl (length text) in
    (
      primary,
      mtf_encode bwt,
      parts_of sais text bwt primary e,
      count_ranks ∙ size,
      ranks_bytes,
      primary_small,
      rw (
        room,
        mtf_decode-mtf_encode bwt small_bytes,
        back two_chain_min max_packed_lf (omega arith),
        same_size,
      ),
    )

-- With a suffix array of the doubled text, for a block of at most 8 MiB: what `bwt_mtf_encode_parts`
-- returns, with the length of the block, is decoded to the block; the ranks are as many as its bytes.
pub bwt_mtf_decode_parts-bwt_mtf_encode_parts :
    (sais : List ℕ → Option (List ℕ)) (text sa : List ℕ)
    → sais (text ++ text) ≡ some sa
    → IsSuffixArray (text ++ text) sa
    → IsBytes text
    → length text ≤ max_bwt_input_size
    → (primary : ℕ) × (ranks : List ℕ) × (bwt_mtf_encode_parts sais text ≡ ok (primary, ranks))
      × (length ranks ≡ length text)
      × (bwt_mtf_decode_parts primary ranks (length text) ≡ ok text)
bwt_mtf_decode_parts-bwt_mtf_encode_parts sais text sa found h bytes fits =
    let (primary, ranks, e, size, small, below, back) = parts sais text sa found h bytes fits in
    (primary, ranks, e, size, back)

framed :
    (sais : List ℕ → Option (List ℕ)) (text : List ℕ) (primary : ℕ) (ranks : List ℕ)
    → bwt_mtf_encode_parts sais text ≡ ok (primary, ranks)
    → bwt_mtf_encode sais text ≡ ok (to_le 4 primary ++ ranks)
unfolding bwt_mtf_encode
framed sais text primary ranks e = rw (bwt_mtf_encode, e) refl

unframed :
    (primary : ℕ) (ranks : List ℕ)
    → primary < 2 ^ 32
    → length ranks ≤ max_decompressed_block_size
    → bwt_mtf_decode (to_le 4 primary ++ ranks) (length ranks)
      ≡ bwt_mtf_decode_parts primary ranks (length ranks)
unfolding bwt_mtf_decode
unframed primary ranks index fits =
    let encoded = to_le 4 primary ++ ranks in
    let word = length-to_le 4 primary in
    let front : take 4 encoded ≡ to_le 4 primary = take-append 4 (to_le 4 primary) ranks word in
    let behind : drop 4 encoded ≡ ranks = drop-append 4 (to_le 4 primary) ranks word in
    let room : leb (length ranks) max_decompressed_block_size ≡ true = ground (arith, fits) in
    let long : leb 4 (length encoded) ≡ true =
      ground (arith, word, length-append (to_le 4 primary) ranks) in
    let count_ranks : (length ranks == length ranks) ≡ true = ==_refl (length ranks) in
    rw (room, long, behind, count_ranks, front, from_le-to_le 4 primary index) refl

-- With a suffix array of the doubled text, for a block of at most 8 MiB: `bwt_mtf_encode` returns four
-- bytes and as many more as the block has, and `bwt_mtf_decode`, given that length, returns the block.
pub bwt_mtf_decode-bwt_mtf_encode :
    (sais : List ℕ → Option (List ℕ)) (text sa : List ℕ)
    → sais (text ++ text) ≡ some sa
    → IsSuffixArray (text ++ text) sa
    → IsBytes text
    → length text ≤ max_bwt_input_size
    → (encoded : List ℕ) × (bwt_mtf_encode sais text ≡ ok encoded)
      × (length encoded ≡ 4 + length text)
      × (bwt_mtf_decode encoded (length text) ≡ ok text)
bwt_mtf_decode-bwt_mtf_encode sais text sa found h bytes fits =
    let (primary, ranks, e, size, small, below, back) = parts sais text sa found h bytes fits in
    let room = unframed primary ranks (omega (arith, below, fits)) (omega (arith, size, fits)) in
    (
      to_le 4 primary ++ ranks,
      framed sais text primary ranks e,
      length-append (to_le 4 primary) ranks ∙ omega (arith, length-to_le 4 primary, size),
      ap (bwt_mtf_decode (to_le 4 primary ++ ranks)) (sym size)
          ∙ room
          ∙ ap (bwt_mtf_decode_parts primary ranks) size
          ∙ back,
    )

encode_of :
    (sais : List ℕ → Option (List ℕ)) (text : List ℕ) (primary : ℕ) (ranks : List ℕ)
    → bwt_mtf_encode_parts sais text ≡ ok (primary, ranks)
    → 2 ≤ length text
    → (sa : List ℕ) × (sais (text ++ text) ≡ some sa) × (length text ≤ max_bwt_input_size)
unfolding bwt_mtf_encode_parts bwt_encode
encode_of sais [] primary ranks done long = absurd (omega arith)
encode_of sais (b ∷ []) primary ranks done long = absurd (omega arith)
encode_of sais (b ∷ c ∷ rest) primary ranks done long =
    let text = b ∷ c ∷ rest in
    elim (Bool-cases (ltb max_bwt_input_size (length text))) [
      | inl large ↦ absurd (cc (rw (bwt_mtf_encode_parts, bwt_encode, large) at done))
      | inr fits ↦ elim (Option-cases (sais (text ++ text))) [
        | inl failed ↦ absurd (cc (rw (bwt_mtf_encode_parts, bwt_encode, fits, failed) at done))
        | inr (sa, found) ↦ (sa, found, ground (arith, fits))
      ]
    ]

-- What `bwt_mtf_encode_parts` returned, where what `sais` returns is a suffix array.
pub parts_inv :
    (sais : List ℕ → Option (List ℕ)) (text : List ℕ) (primary : ℕ) (ranks : List ℕ)
    → ((sa : List ℕ) → sais (text ++ text) ≡ some sa → IsSuffixArray (text ++ text) sa)
    → IsBytes text
    → 2 ≤ length text
    → bwt_mtf_encode_parts sais text ≡ ok (primary, ranks)
    → IsBytes ranks
      × (length ranks ≡ length text)
      × (length text ≤ max_bwt_input_size)
      × (primary ≤ length text)
      × (bwt_mtf_decode_parts primary ranks (length text) ≡ ok text)
parts_inv sais text primary ranks law bytes long done =
    let (sa, found, fits) = encode_of sais text primary ranks done long in
    let (primary', ranks', e, size, small, below, back) =
      parts sais text sa found (law sa found) bytes fits in
    let same_pair : Path (Result (ℕ × List ℕ)) (ok (primary', ranks')) (ok (primary, ranks)) =
      sym e ∙ done in
    let same_primary : primary' ≡ primary = cc same_pair in
    let same_ranks : ranks' ≡ ranks = cc same_pair in
    (
      subst IsBytes same_ranks small,
      rw (sym same_ranks) size,
      fits,
      omega (arith, below, same_primary),
      rw (sym same_ranks, sym same_primary) back,
    )
