-- ===== src/Chunker.antt =====
-- aether-core/src/chunker.rs: fixed-size chunks. The entropy that a chunk carries is left out, and
-- its hash is blake3 of its data, a parameter. The sum of an offset and the block size is that of
-- natural numbers: on a 64-bit word it overflows for blocks of almost 2 ^ 64 bytes only.
pub mod Fixed
mod Tests
use aether_arch.Base.{
  ℕ, zero, suc, ◌+◌, ◌-◌, List, [], ◌∷◌, length, take, drop, ltb, min, if◌then◌else◌, Option, none,
  some, map,
}

pub record ChunkRef : Type 0 where
  pub offset : ℕ
  pub len : ℕ
  pub bytes : List ℕ
  pub blake3_hash : List ℕ

module _ (blake3 : List ℕ → List ℕ) where
  abbrev pub chunk_at : ℕ → ℕ → List ℕ → ChunkRef
  chunk_at offset end xs =
      let piece = take (end - offset) (drop offset xs) in
      record { offset = offset; len = length piece; bytes = piece; blake3_hash = blake3 piece }

  -- The loop with a bound on its rounds; `none` when they run out before the end of the data.
  unfoldable pub fixed_loop : ℕ → List ℕ → ℕ → ℕ → Option (List ChunkRef)
  fixed_loop zero xs block_size offset = if ltb offset (length xs) then none else some []
  fixed_loop (suc rounds) xs block_size offset =
      let end = min (offset + block_size) (length xs) in
      let rest = fixed_loop rounds xs block_size end in
      if ltb offset (length xs)
      then elim rest [ none ↦ none | some chunks ↦ some (chunk_at offset end xs ∷ chunks) ]
      else some []

  -- `chunk_fixed_refs`, with a bound on the rounds of its loop.
  unfoldable pub chunk_fixed_refs : ℕ → List ℕ → ℕ → Option (List ChunkRef)
  unfolding fixed_loop
  chunk_fixed_refs rounds xs block_size = fixed_loop rounds xs block_size 0
