-- ===== src/Pipeline/Zstd.antt =====
-- aether-core/src/coding/zstd_fallback.rs: the calls of the zstd crate and the checks around them.
use aether_arch.Base.{
  ℕ, ◌+◌, ◌≤◌, ◌≡◌, refl, ap, ◌∙◌, List, length, take, take_all, leb, ◌==◌, ==_refl, if◌then◌else◌,
  Option, none, some, Option-cases, inl, inr, true, arith,
}
use aether_arch.Errors.{Result, ok, err, compression, decompression, ◌>>◌, guard}
use aether_arch.Coding.BytePlane.{max_decompressed_block_size}

-- `zstd::encode_all`, and a decoder of which no more than a limit is read; none where they fail.
pub record ZstdCrate : Type 0 where
  pub encode_all : List ℕ → Option (List ℕ)
  pub read : List ℕ → ℕ → Option (List ℕ)

-- The decoder gives what was encoded.
abbrev pub IsZstd : ZstdCrate → Type 0
IsZstd z =
    (xs ys : List ℕ) (limit : ℕ)
    → z.encode_all xs ≡ some ys
    → z.read ys limit ≡ some (take limit xs)

unfoldable pub compress : ZstdCrate → List ℕ → Result (List ℕ)
compress z bytes = elim (z.encode_all bytes) [ none ↦ err compression | some ys ↦ ok ys ]

unfoldable pub decompress : ZstdCrate → List ℕ → ℕ → Result (List ℕ)
decompress z bytes expected_size = do
  guard (leb expected_size max_decompressed_block_size) decompression
  elim (z.read bytes (expected_size + 1)) [
    | none ↦ err decompression
    | some found ↦ if length found == expected_size then ok found else err decompression
  ]

-- What is compressed, and is no larger than a block, is decompressed to what it was.
pub decompress-compress :
    (z : ZstdCrate) (xs ys : List ℕ)
    → IsZstd z
    → length xs ≤ max_decompressed_block_size
    → compress z xs ≡ ok ys
    → decompress z ys (length xs) ≡ ok xs
unfolding compress decompress
decompress-compress z xs ys law small done = elim (Option-cases (z.encode_all xs)) [
  | inl e ↦ absurd (cc (rw (compress, e) at done))
  | inr (coded, e) ↦
      let same : coded ≡ ys = cc (rw (compress, e) at done) in
      let found : z.read ys (length xs + 1) ≡ some xs =
        law xs ys (length xs + 1) (e ∙ ap some same)
        ∙ ap some (take_all (length xs + 1) xs (omega arith)) in
      let room : leb (length xs) max_decompressed_block_size ≡ true = ground (arith, small) in
      rw (room, found, ==_refl (length xs)) refl
]
