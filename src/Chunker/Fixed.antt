-- ===== src/Chunker/Fixed.antt =====
-- Fixed-size chunks make up the data.
use aether_arch.Base.{
  ℕ, zero, suc, ◌+◌, ◌-◌, ◌<◌, ◌≤◌, ◌≡◌, refl, sym, ap, ◌∙◌, List, [], ◌∷◌, ◌++◌, length, take,
  drop, ltb, min, none, some, arith, Bool-cases, inl, inr, lt→ltb, length-take, length-drop,
  take-append-drop, drop-drop, drop_all,
}
use mathlib.Core.Path.{subst}
use aether_arch.Chunker.{ChunkRef, chunk_at, fixed_loop, chunk_fixed_refs}

abbrev pub joined : List ChunkRef → List ℕ
joined [] = []
joined (c ∷ cs) = c.bytes ++ joined cs

-- Each chunk begins where the one before it ends, holds one byte at least and `limit` at most, and
-- carries its own length and hash.
abbrev pub Contiguous : (List ℕ → List ℕ) → ℕ → ℕ → List ChunkRef → Type 0
Contiguous blake3 limit offset [] = Unit
Contiguous blake3 limit offset (c ∷ cs) =
    (c.offset ≡ offset)
    × (c.len ≡ length c.bytes)
    × (0 < c.len)
    × (c.len ≤ limit)
    × (c.blake3_hash ≡ blake3 c.bytes)
    × Contiguous blake3 limit (offset + c.len) cs

module _ (blake3 : List ℕ → List ℕ) where
  loop_ends :
      (rounds : ℕ) (xs : List ℕ) (block_size offset : ℕ)
      → length xs ≤ offset
      → fixed_loop blake3 rounds xs block_size offset ≡ some []
  unfolding fixed_loop
  loop_ends zero xs block_size offset h = ground arith
  loop_ends (suc rounds) xs block_size offset h = ground arith

  loop_goes :
      (rounds : ℕ) (xs : List ℕ) (block_size offset : ℕ) (chunks : List ChunkRef)
      → offset < length xs
      → fixed_loop blake3 rounds xs block_size (min (offset + block_size) (length xs)) ≡ some chunks
      → fixed_loop blake3 (suc rounds) xs block_size offset
        ≡ some (chunk_at blake3 offset (min (offset + block_size) (length xs)) xs ∷ chunks)
  unfolding fixed_loop
  loop_goes rounds xs block_size offset chunks h e = rw (lt→ltb offset (length xs) h, e)

  covers :
      (rounds : ℕ) (xs : List ℕ) (block_size offset : ℕ)
      → 0 < block_size
      → offset ≤ length xs
      → length xs ≤ offset + rounds
      → (chunks : List ChunkRef) × (fixed_loop blake3 rounds xs block_size offset ≡ some chunks)
        × (joined chunks ≡ drop offset xs)
        × Contiguous blake3 block_size offset chunks
  covers zero xs block_size offset positive inside enough = (
    [],
    loop_ends zero xs block_size offset (omega (arith, enough)),
    sym (drop_all offset xs (omega (arith, enough))),
    tt,
  )
  covers (suc rounds) xs block_size offset positive inside enough =
      elim (Bool-cases (ltb offset (length xs))) [
        | inr end ↦
            let done : length xs ≤ offset = ground arith in
            (
              [],
              loop_ends (suc rounds) xs block_size offset done,
              sym (drop_all offset xs done),
              tt,
            )
        | inl more ↦
            let before : offset < length xs = ground arith in
            let end = min (offset + block_size) (length xs) in
            let (chunks, e, whole, next) =
              covers rounds xs block_size end positive (omega arith)
                (omega (arith, before, positive, enough)) in
            let size : length (take (end - offset) (drop offset xs)) ≡ end - offset =
              omega (
                arith,
                length-take (end - offset) (drop offset xs),
                length-drop offset xs,
                before,
              ) in
            let there : offset + (end - offset) ≡ end = omega (arith, before) in
            let behind : joined chunks ≡ drop (end - offset) (drop offset xs) =
              whole ∙ ap (λ k. drop k xs) (sym there) ∙ sym (drop-drop (end - offset) offset xs) in
            (
              chunk_at blake3 offset end xs ∷ chunks,
              loop_goes rounds xs block_size offset chunks before e,
              ap (λ rest. take (end - offset) (drop offset xs) ++ rest) behind
                  ∙ take-append-drop (end - offset) (drop offset xs),
              (
                refl,
                refl,
                omega (arith, size, before, positive),
                omega (arith, size),
                refl,
                subst (λ k. Contiguous blake3 block_size k chunks)
                    (sym (ap (λ k. offset + k) size ∙ there)) next,
              ),
            )
      ]

  -- With blocks of one byte or more and a round for each byte, `chunk_fixed_refs` ends, and its
  -- chunks put together are the data: each begins where the one before ends, the first at 0, none is
  -- empty or larger than a block, and each carries its length and its hash.
  pub chunk_fixed_refs-covers :
      (rounds : ℕ) (xs : List ℕ) (block_size : ℕ)
      → 0 < block_size
      → length xs ≤ rounds
      → (chunks : List ChunkRef) × (chunk_fixed_refs blake3 rounds xs block_size ≡ some chunks)
        × (joined chunks ≡ xs)
        × Contiguous blake3 block_size 0 chunks
  unfolding chunk_fixed_refs
  chunk_fixed_refs-covers rounds xs block_size positive enough =
      covers rounds xs block_size 0 positive (omega arith) (omega (arith, enough))

  -- With blocks of no byte and data that is not empty, `chunk_fixed_refs` does not end, whatever the
  -- number of rounds.
  pub chunk_fixed_refs-never :
      (rounds : ℕ) (xs : List ℕ) → 0 < length xs → chunk_fixed_refs blake3 rounds xs 0 ≡ none
  unfolding chunk_fixed_refs fixed_loop
  chunk_fixed_refs-never zero xs h = rw (lt→ltb 0 (length xs) h)
  chunk_fixed_refs-never (suc rounds) xs h =
      let stays : min (0 + 0) (length xs) ≡ 0 = omega arith in
      rw (lt→ltb 0 (length xs) h) (rw stays (rw (chunk_fixed_refs-never rounds xs h)))
