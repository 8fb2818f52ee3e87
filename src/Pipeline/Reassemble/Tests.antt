-- ===== src/Pipeline/Reassemble/Tests.antt =====
-- Two files that share a block.
use aether_arch.Base.{ℕ, ◌≡◌, refl, List, [], ◌∷◌, some, arith}
use aether_arch.Errors.{ok}
use aether_arch.Archive.Files.{FileEntry}
use aether_arch.Pipeline.Reassemble.{
  Blocks, extract_all, extract_each, block_ref_counts, reassemble_file_consuming,
  reassemble_file_from_blocks,
}
use aether_arch.Pipeline.Reassemble.Extract.{extract_all-extract_each}
use aether_arch.Pipeline.Reassemble.Consuming.{
  reassemble_file_consuming-reassemble_file_from_blocks,
}

abbrev file : ℕ → ℕ → ℕ → ℕ → FileEntry
file name start count size = record {
  path = name ∷ [];
  original_size = size;
  blake3_hash = [];
  solid_group_id = 0;
  chunk_start_idx = start;
  chunk_count = count;
  permissions = 0;
  mtime = 0;
}

abbrev files : List FileEntry
files = file 97 0 2 3 ∷ file 98 1 2 4 ∷ []

abbrev blocks : Blocks
blocks = some (1 ∷ 2 ∷ []) ∷ some (3 ∷ 4 ∷ []) ∷ some (5 ∷ 6 ∷ []) ∷ []

abbrev no_hash : List ℕ → List ℕ
no_hash bytes = []

counted : block_ref_counts files 3 ≡ 1 ∷ 2 ∷ 1 ∷ []
unfolding block_ref_counts
counted = refl

extracted :
    extract_all no_hash files blocks
    ≡ ok ((97 ∷ [], 1 ∷ 2 ∷ 3 ∷ []) ∷ (98 ∷ [], 3 ∷ 4 ∷ 5 ∷ 6 ∷ []) ∷ [])
unfolding extract_all
extracted = refl

extract_all-extract_each_example :
    extract_all no_hash files blocks ≡ extract_each no_hash files blocks
extract_all-extract_each_example = extract_all-extract_each no_hash files blocks (omega arith)

reassemble_file_consuming-reassemble_file_from_blocks_example :
    (reassemble_file_consuming (file 97 0 2 3) blocks).0
    ≡ reassemble_file_from_blocks (file 97 0 2 3) blocks
reassemble_file_consuming-reassemble_file_from_blocks_example =
    reassemble_file_consuming-reassemble_file_from_blocks (file 97 0 2 3) blocks
