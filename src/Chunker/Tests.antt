-- ===== src/Chunker/Tests.antt =====
-- Chunks of a short input, with a hash that is the length.
use aether_arch.Base.{ℕ, ◌≡◌, List, [], ◌∷◌, length, none, some, arith}
use aether_arch.Chunker.{ChunkRef, chunk_fixed_refs}
use aether_arch.Chunker.Fixed.{joined, Contiguous, chunk_fixed_refs-covers, chunk_fixed_refs-never}

abbrev sample_hash : List ℕ → List ℕ
sample_hash xs = length xs ∷ []

abbrev sample : List ℕ
sample = 10 ∷ 11 ∷ 12 ∷ 13 ∷ 14 ∷ []

chunk_fixed_refs-covers_example :
    (chunks : List ChunkRef) × (chunk_fixed_refs sample_hash 5 sample 2 ≡ some chunks)
    × (joined chunks ≡ sample)
    × Contiguous sample_hash 2 0 chunks
chunk_fixed_refs-covers_example =
    chunk_fixed_refs-covers sample_hash 5 sample 2 (omega arith) (omega arith)

chunk_fixed_refs-never_example : chunk_fixed_refs sample_hash 100 sample 0 ≡ none
chunk_fixed_refs-never_example = chunk_fixed_refs-never sample_hash 100 sample (omega arith)
