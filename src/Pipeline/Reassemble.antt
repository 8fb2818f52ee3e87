-- ===== src/Pipeline/Reassemble.antt =====
-- aether-core/src/pipeline/decompress.rs: files made of decompressed blocks, and the loop of
-- decompress_seekable.rs and decompress_streaming.rs over the files.
-- A method that takes `&mut` arrays returns them behind its result.
pub mod Counts
pub mod Shared
pub mod Extract
pub mod Consuming
pub mod Tests
use aether_arch.Base.{
  ℕ, zero, suc, ◌+◌, ◌-◌, ◌%◌, ◌^◌, Bool, List, [], ◌∷◌, ◌++◌, length, replicate, get_elem?, set,
  take, min, ltb, leb, ◌==◌, if◌then◌else◌, Option, none, some, bytes_eq,
}
use aether_arch.Errors.{
  Result, ok, err, resource_limit_exceeded, block_not_found, checksum_mismatch, ◌>>=◌, ◌>>◌, guard,
}
use aether_arch.Archive.Files.{FileEntry}
use aether_arch.Pipeline.ExtractionPath.{validate_extraction_path}

abbrev pub Blocks : Type 0
Blocks = List (Option (List ℕ))

-- `blocks[i]`, for an index of a range that was checked.
abbrev pub block_at : Blocks → ℕ → Option (List ℕ)
block_at blocks i = elim (get_elem? blocks i) [ none ↦ none | some block ↦ block ]

-- The half-open range, or none for a file of no blocks. `usize` has 64 bits.
unfoldable pub file_block_range : FileEntry → ℕ → Result (Option (ℕ × ℕ))
file_block_range e block_count =
    let start = e.chunk_start_idx in
    let end = start + e.chunk_count in
    if e.chunk_count == 0
    then ok none
    else if leb (2 ^ 64) end
    then err resource_limit_exceeded
    else if ltb block_count end
    then err (block_not_found ((if ltb start block_count then block_count else start) % 2 ^ 32))
    else ok (some (start, end))

abbrev pub truncate_to_file_size : FileEntry → List ℕ → List ℕ
truncate_to_file_size e combined = take e.original_size combined

abbrev pub missing : ℕ → Result (List ℕ)
missing i = err (block_not_found (i % 2 ^ 32))

-- The blocks from `i` on, with their number.
unfoldable pub collect : ℕ → ℕ → Blocks → Result (List ℕ)
collect zero i blocks = ok []
collect (suc count) i blocks = elim (block_at blocks i) [
  | none ↦ missing i
  | some data_of_block ↦ collect count (i + 1) blocks >>= λ rest. ok (data_of_block ++ rest)
]

unfoldable pub reassemble_file_from_blocks : FileEntry → Blocks → Result (List ℕ)
unfolding file_block_range collect
reassemble_file_from_blocks e blocks = do
  range ← file_block_range e (length blocks)
  elim range [
    | none ↦ ok []
    | some (start, end) ↦
        collect (end - start) start blocks >>= λ combined. ok (truncate_to_file_size e combined)
  ]

unfoldable pub collect_consuming : ℕ → ℕ → Blocks → Result (List ℕ) × Blocks
collect_consuming zero i blocks = (ok [], blocks)
collect_consuming (suc count) i blocks = elim (block_at blocks i) [
  | none ↦ (missing i, blocks)
  | some data_of_block ↦
      let rest = collect_consuming count (i + 1) (set blocks i none) in
      (rest.0 >>= (λ more. ok (data_of_block ++ more)), rest.1)
]

unfoldable pub reassemble_file_consuming : FileEntry → Blocks → Result (List ℕ) × Blocks
unfolding file_block_range collect_consuming
reassemble_file_consuming e blocks = elim (file_block_range e (length blocks)) [
  | err reason ↦ (err reason, blocks)
  | ok none ↦ (ok [], blocks)
  | ok (some (start, end)) ↦
      let found = collect_consuming (end - start) start blocks in
      (found.0 >>= (λ combined. ok (truncate_to_file_size e combined)), found.1)
]

-- `slot.saturating_add(1)` on a `u32`.
abbrev pub add_reference : List ℕ → ℕ → List ℕ
add_reference counts i = elim (get_elem? counts i) [
  | none ↦ counts
  | some c ↦ set counts i (min (c + 1) (2 ^ 32 - 1))
]

unfoldable pub add_references : ℕ → ℕ → List ℕ → List ℕ
add_references zero i counts = counts
add_references (suc count) i counts = add_references count (i + 1) (add_reference counts i)

-- A range that starts behind its end is no slice, and counts nothing.
unfoldable pub count_entry : FileEntry → ℕ → List ℕ → List ℕ
unfolding add_references
count_entry e block_count counts =
    let end = min (min (e.chunk_start_idx + e.chunk_count) (2 ^ 64 - 1)) block_count in
    add_references (end - e.chunk_start_idx) e.chunk_start_idx counts

unfoldable pub count_entries : List FileEntry → ℕ → List ℕ → List ℕ
unfolding count_entry
count_entries [] block_count counts = counts
count_entries (e ∷ entries) block_count counts =
    count_entries entries block_count (count_entry e block_count counts)

unfoldable pub block_ref_counts : List FileEntry → ℕ → List ℕ
unfolding count_entries
block_ref_counts entries block_count = count_entries entries block_count (replicate block_count 0)

-- The block, and the arrays behind: it is taken if at most one reference is left.
unfoldable pub take_or_clone : ℕ → Blocks → List ℕ → Result (List ℕ) × (Blocks × List ℕ)
take_or_clone i blocks counts =
    let rem : ℕ = elim (get_elem? counts i) [ none ↦ 1 | some r ↦ r ] in
    let counts' : List ℕ = elim (get_elem? counts i) [
      | none ↦ counts
      | some r ↦ set counts i (r - 1)
    ] in
    let block : Result (List ℕ) = elim (block_at blocks i) [
      | none ↦ missing i
      | some data_of_block ↦ ok data_of_block
    ] in
    (block, ((if leb rem 1 then set blocks i none else blocks), counts'))

unfoldable pub collect_shared : ℕ → ℕ → Blocks → List ℕ → Result (List ℕ) × (Blocks × List ℕ)
unfolding take_or_clone
collect_shared zero i blocks counts = (ok [], (blocks, counts))
collect_shared (suc count) i blocks counts =
    let taken = take_or_clone i blocks counts in
    let rest = collect_shared count (i + 1) taken.1.0 taken.1.1 in
    elim taken.0 [
      | err reason ↦ (err reason, taken.1)
      | ok block ↦ (rest.0 >>= (λ more. ok (block ++ more)), rest.1)
    ]

unfoldable pub reassemble_file_shared :
    FileEntry → Blocks → List ℕ → Result (List ℕ) × (Blocks × List ℕ)
unfolding file_block_range collect_shared
reassemble_file_shared e blocks counts = elim (file_block_range e (length blocks)) [
  | err reason ↦ (err reason, (blocks, counts))
  | ok none ↦ (ok [], (blocks, counts))
  | ok (some (start, end)) ↦
      let found = collect_shared (end - start) start blocks counts in
      (found.0 >>= (λ combined. ok (truncate_to_file_size e combined)), found.1)
]

module _ (blake3 : List ℕ → List ℕ) where
  -- The hash of a file, and its path, before it is written; what is written goes to the list.
  unfoldable pub check_file : FileEntry → List ℕ → Result (List ℕ × List ℕ)
  unfolding bytes_eq validate_extraction_path
  check_file e file_data = do
    guard (bytes_eq (blake3 file_data) e.blake3_hash) (checksum_mismatch e.chunk_start_idx)
    validate_extraction_path e.path
    ok (e.path, file_data)

  unfoldable pub extract_files : List FileEntry → Blocks → List ℕ → Result (List (List ℕ × List ℕ))
  unfolding reassemble_file_shared check_file
  extract_files [] blocks counts = ok []
  extract_files (e ∷ entries) blocks counts = do
    let found = reassemble_file_shared e blocks counts
    file_data ← found.0
    written ← check_file e file_data
    rest ← extract_files entries found.1.0 found.1.1
    ok (written ∷ rest)

  unfoldable pub extract_all : List FileEntry → Blocks → Result (List (List ℕ × List ℕ))
  unfolding extract_files block_ref_counts
  extract_all entries blocks =
      extract_files entries blocks (block_ref_counts entries (length blocks))

  -- Each file by itself, of blocks that stay where they are.
  unfoldable pub extract_each : List FileEntry → Blocks → Result (List (List ℕ × List ℕ))
  unfolding reassemble_file_from_blocks check_file
  extract_each [] blocks = ok []
  extract_each (e ∷ entries) blocks = do
    file_data ← reassemble_file_from_blocks e blocks
    written ← check_file e file_data
    rest ← extract_each entries blocks
    ok (written ∷ rest)
