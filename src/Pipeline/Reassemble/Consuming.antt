-- ===== src/Pipeline/Reassemble/Consuming.antt =====
-- A single file made of blocks that it takes is the file made of blocks that stay.
use aether_arch.Base.{
  ℕ, zero, suc, ◌+◌, ◌-◌, ◌≤◌, ◌≡◌, ◌≢◌, refl, ap, ◌∙◌, ◌++◌, length, set, Option, none, some,
  Option-cases, arith, inl, inr,
}
use aether_arch.Errors.{Result, ok, err, ◌>>=◌}
use aether_arch.Archive.Files.{FileEntry}
use aether_arch.Pipeline.Reassemble.{
  Blocks, block_at, collect, collect_consuming, file_block_range, truncate_to_file_size,
  reassemble_file_from_blocks, reassemble_file_consuming,
}
use aether_arch.Pipeline.Reassemble.Shared.{block_at-set_ne}

collect_consuming-collect :
    (count i : ℕ) (blocks now : Blocks)
    → ((j : ℕ) → i ≤ j → block_at now j ≡ block_at blocks j)
    → (collect_consuming count i now).0 ≡ collect count i blocks
unfolding collect_consuming collect
collect_consuming-collect zero i blocks now same = refl
collect_consuming-collect (suc count) i blocks now same = elim (Option-cases (block_at blocks i)) [
  | inl gone ↦
      let gone' : block_at now i ≡ none = same i (omega arith) ∙ gone in
      rw (collect_consuming, gone', collect, gone) refl
  | inr (block, stays) ↦
      let stays' : block_at now i ≡ some block = same i (omega arith) ∙ stays in
      let rest = collect_consuming-collect count (i + 1) blocks (set now i none) (λ j le.
        let away : i ≢ j = λ e. absurd (omega (arith, e, le)) in
        block_at-set_ne now i j away ∙ same j (omega (arith, le))) in
      rw (collect_consuming, stays', collect, stays)
        (ap (λ m. m >>= λ more. ok (block ++ more)) rest)
]

-- `reassemble_file_consuming` gives the file, or the error, that `reassemble_file_from_blocks` gives.
pub reassemble_file_consuming-reassemble_file_from_blocks :
    (e : FileEntry) (blocks : Blocks)
    → (reassemble_file_consuming e blocks).0 ≡ reassemble_file_from_blocks e blocks
unfolding reassemble_file_consuming reassemble_file_from_blocks
reassemble_file_consuming-reassemble_file_from_blocks e blocks =
    by_range (file_block_range e (length blocks)) refl
  where
    by_range :
        (r : Result (Option (ℕ × ℕ)))
        → file_block_range e (length blocks) ≡ r
        → (reassemble_file_consuming e blocks).0 ≡ reassemble_file_from_blocks e blocks
    by_range (err reason) r = rw (reassemble_file_consuming, r, reassemble_file_from_blocks) refl
    by_range (ok none) r = rw (reassemble_file_consuming, r, reassemble_file_from_blocks) refl
    by_range (ok (some (start, end))) r =
        rw (reassemble_file_consuming, r, reassemble_file_from_blocks)
          (ap (λ m. m >>= λ combined. ok (truncate_to_file_size e combined))
            (collect_consuming-collect (end - start) start blocks blocks (λ j le. refl)))
