-- ===== src/Pipeline/Reassemble/Extract.antt =====
-- The extraction of all files, with each block released behind its last file, gives the files that each
-- of them is by itself.
use aether_arch.Base.{
  ℕ, ◌+◌, ◌-◌, ◌%◌, ◌^◌, ◌≤◌, ◌<◌, ◌≡◌, refl, ap, ◌∙◌, List, [], ◌∷◌, length, min, ltb, leb, ◌==◌,
  ==_iff, if◌then◌else◌, none, some, arith, Bool-cases, inl, inr,
}
use aether_arch.Errors.{
  Result, Result-cases, ok, err, block_not_found, resource_limit_exceeded, ◌>>=◌,
}
use aether_arch.Archive.Files.{FileEntry}
use aether_arch.Pipeline.Reassemble.{
  Blocks, collect, file_block_range, truncate_to_file_size, reassemble_file_from_blocks,
  reassemble_file_shared, block_ref_counts, check_file, extract_files, extract_all, extract_each,
}
use aether_arch.Pipeline.Reassemble.Counts.{
  inside, inside_none, references, count_at-block_ref_counts, length-block_ref_counts,
}
use aether_arch.Pipeline.Reassemble.Shared.{Serves, Serves-same, behind, collect_shared-collect}

-- The range of a file, as `block_ref_counts` has it.
abbrev spread : FileEntry → ℕ → ℕ
spread e n = min (min (e.chunk_start_idx + e.chunk_count) (2 ^ 64 - 1)) n - e.chunk_start_idx

-- The four things that the range of a file may be.
data Range (e : FileEntry) (n : ℕ) : Type 0 where
  refused : (reason : _) → file_block_range e n ≡ err reason → Range e n
  empty : e.chunk_count ≡ 0 → file_block_range e n ≡ ok none → Range e n
  full :
      e.chunk_start_idx + e.chunk_count ≤ n
      → e.chunk_start_idx + e.chunk_count < 2 ^ 64
      → file_block_range e n ≡ ok (some (e.chunk_start_idx, e.chunk_start_idx + e.chunk_count))
      → Range e n

range_of : (e : FileEntry) (n : ℕ) → Range e n
range_of e n =
    let start = e.chunk_start_idx in
    let end = start + e.chunk_count in
    elim (Bool-cases (e.chunk_count == 0)) [
      | inl none_at_all ↦
          empty ((==_iff e.chunk_count 0).0 none_at_all)
            (unfold file_block_range in rw none_at_all refl)
      | inr some_blocks ↦ elim (Bool-cases (leb (2 ^ 64) end)) [
        | inl large ↦
            refused resource_limit_exceeded
              (unfold file_block_range in rw (some_blocks, large) refl)
        | inr small ↦ elim (Bool-cases (ltb n end)) [
          | inl out ↦
              refused (block_not_found ((if ltb start n then n else start) % 2 ^ 32))
                (unfold file_block_range in rw (some_blocks, small, out) refl)
          | inr in_range ↦
              full (ground (arith, in_range)) (ground (arith, small))
                (unfold file_block_range in rw (some_blocks, small, in_range) refl)
        ]
      ]
    ]

module _ (blocks : Blocks) where
  -- The references of a file, and those of the others.
  abbrev with_file : FileEntry → (ℕ → ℕ) → ℕ → ℕ
  with_file e others j = inside (spread e (length blocks)) e.chunk_start_idx j + others j

  ok_inv :
      (e : FileEntry) (m : Result (List ℕ)) (found : List ℕ)
      → (m >>= λ combined. ok (truncate_to_file_size e combined)) ≡ ok found
      → (combined : List ℕ) × (m ≡ ok combined)
  ok_inv e (ok combined) found done = (combined, refl)
  ok_inv e (err reason) found done = absurd (cc done)

  -- One file, with the references of the others left.
  shared_lem :
      (e : FileEntry) (others : ℕ → ℕ) (now : Blocks) (counts : List ℕ)
      → Serves blocks (with_file e others) now counts
      → ((reassemble_file_shared e now counts).0 ≡ reassemble_file_from_blocks e blocks)
        × ((found : List ℕ)
            → reassemble_file_from_blocks e blocks ≡ ok found
            → Serves blocks others
                (reassemble_file_shared e now counts).1.0
                (reassemble_file_shared e now counts).1.1)
  unfolding reassemble_file_shared reassemble_file_from_blocks
  shared_lem e others now counts h =
      let start = e.chunk_start_idx in
      let end = start + e.chunk_count in
      elim (range_of e (length blocks)) [
        | refused reason r ↦
            let r' : file_block_range e (length now) ≡ err reason =
              ap (file_block_range e) h.as_many ∙ r in
            (
              rw (reassemble_file_shared, r', reassemble_file_from_blocks, r) refl,
              λ found done. absurd (cc (rw (reassemble_file_from_blocks, r) at done)),
            )
        | empty zero_count r ↦
            let r' : file_block_range e (length now) ≡ ok none =
              ap (file_block_range e) h.as_many ∙ r in
            let no_spread : spread e (length blocks) ≡ 0 = omega (arith, zero_count) in
            let same : (j : ℕ) → with_file e others j ≡ others j = λ j.
              ap (λ c. inside c start j + others j) no_spread
              ∙ omega (arith, inside_none start j) in
            (
              rw (reassemble_file_shared, r', reassemble_file_from_blocks, r) refl,
              λ found done.
                  rw (reassemble_file_shared, r')
                    (Serves-same blocks (with_file e others) others now counts same h),
            )
        | full inside_n small r ↦
            let r' : file_block_range e (length now) ≡ ok (some (start, end)) =
              ap (file_block_range e) h.as_many ∙ r in
            let e_spread : spread e (length blocks) ≡ end - start =
              omega (arith, inside_n, small) in
            let ours : (j : ℕ) → with_file e others j ≡ inside (end - start) start j + others j =
              λ j. ap (λ c. inside c start j + others j) e_spread in
            let (same, serves) =
              collect_shared-collect blocks (end - start) start (with_file e others) now counts h
                (omega (arith, inside_n)) (λ j. omega (arith, ours j)) in
            (
              rw (reassemble_file_shared, r', reassemble_file_from_blocks, r)
                  (ap (λ m. m >>= λ combined. ok (truncate_to_file_size e combined)) same),
              λ found done.
                  let (combined, done') =
                    ok_inv e (collect (end - start) start blocks) found
                      (rw (reassemble_file_from_blocks, r) at done) in
                  rw (reassemble_file_shared, r')
                    (Serves-same blocks (behind blocks (with_file e others) (end - start) start)
                      others _ _ (λ j. omega (arith, ours j)) (serves combined done')),
            )
      ]

  module _ (blake3 : List ℕ → List ℕ) where
    files_lem :
        (entries : List FileEntry) (now : Blocks) (counts : List ℕ)
        → Serves blocks (references entries (length blocks)) now counts
        → extract_files blake3 entries now counts ≡ extract_each blake3 entries blocks
    unfolding extract_files extract_each
    files_lem [] now counts h = refl
    files_lem (e ∷ entries) now counts h =
        let others = references entries (length blocks) in
        let (same, serves) = shared_lem e others now counts h in
        let next = reassemble_file_shared e now counts in
        elim (Result-cases (reassemble_file_from_blocks e blocks)) [
          | inl (reason, failed) ↦
              let failed' : next.0 ≡ err reason = same ∙ failed in
              rw (extract_files, failed', extract_each, failed) refl
          | inr (file_data, made) ↦
              let made' : next.0 ≡ ok file_data = same ∙ made in
              let rest = files_lem entries next.1.0 next.1.1 (serves file_data made) in
              rw (extract_files, made', extract_each, made)
                (ap
                  (λ m. check_file blake3 e file_data >>= λ written.
                    m >>= λ others'. ok (written ∷ others'))
                  rest)
        ]

-- For fewer than 2^32 - 1 files: the extraction that takes a block out of the array when the last file
-- with it is made gives what making each file of blocks that all stay gives, the first error included.
pub extract_all-extract_each :
    (blake3 : List ℕ → List ℕ) (entries : List FileEntry) (blocks : Blocks)
    → length entries + 1 < 2 ^ 32
    → extract_all blake3 entries blocks ≡ extract_each blake3 entries blocks
unfolding extract_all
extract_all-extract_each blake3 entries blocks room =
    files_lem blocks blake3 entries blocks (block_ref_counts entries (length blocks)) (record {
      as_many = refl;
      counted = length-block_ref_counts entries (length blocks);
      counts_left = λ j lt. count_at-block_ref_counts entries (length blocks) j room;
      there = λ j lt some_left. refl;
    })
