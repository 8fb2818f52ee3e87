-- ===== src/Grouper/Sizes.antt =====
-- The groups are numbered, not empty, and within the limit.
use aether_arch.Base.{
  ℕ, zero, suc, ◌+◌, ◌%◌, ◌^◌, ◌≤◌, ◌<◌, ◌≡◌, refl, List, [], ◌∷◌, ◌++◌, length, ltb, ◌==◌, arith,
  ◌⊎◌, inl, inr, Bool-cases, if_rule,
}
use mathlib.Core.Path.{subst}
use aether_arch.Archive.Codes.{ContentType, content_code}
use aether_arch.Grouper.{
  SolidGroup, FileInfo, sort, insert_file, is_after, push, fill, split_files, split_bucket,
  groups_loop, group_files, max_solid_group_size,
}

-- The size of the file at an index of the input.
abbrev pub size_at : {E : Type 0} → List (FileInfo E) → ℕ → ℕ
size_at [] i = 0
size_at (f ∷ files) zero = f.size
size_at (f ∷ files) (suc i) = size_at files i

-- The sizes of the files at the indices, together.
abbrev pub total_at : {E : Type 0} → List (FileInfo E) → List ℕ → ℕ
total_at files [] = 0
total_at files (i ∷ indices) = size_at files i + total_at files indices

-- Every file has a size below 2^63, that of a file's offset.
abbrev pub AreSized : {E : Type 0} → List (FileInfo E) → Type 0
AreSized [] = Unit
AreSized (f ∷ files) = (f.size < 2 ^ 63) × AreSized files

total_at-append :
    {E : Type 0} (files : List (FileInfo E)) (xs : List ℕ) (i : ℕ)
    → total_at files (xs ++ (i ∷ [])) ≡ total_at files xs + size_at files i
total_at-append files [] i = omega arith
total_at-append files (x ∷ xs) i = omega (arith, total_at-append files xs i)

-- A group states the sizes of its files together, and has one file or several within the limit.
pub record IsGroup {E M : Type 0} (files : List (FileInfo E)) (g : SolidGroup M) : Type 0 where
  pub some_file : 0 < length g.file_indices
  pub sized : g.total_size ≡ total_at files g.file_indices
  pub within : (length g.file_indices ≡ 1) ⊎ (total_at files g.file_indices ≤ max_solid_group_size)

-- Groups numbered from `id`.
abbrev pub AreGroups : {E M : Type 0} → List (FileInfo E) → ℕ → List (SolidGroup M) → Type 0
AreGroups files id [] = Unit
AreGroups files id (g ∷ groups) =
    (g.group_id ≡ id) × IsGroup files g × AreGroups files (id + 1) groups

-- A pair of a bucket is an index of the input with the file at it.
abbrev IsEntry : {E : Type 0} → List (FileInfo E) → ℕ × FileInfo E → Type 0
IsEntry files x = (size_at files x.0 ≡ x.1.size) × (x.1.size < 2 ^ 63)

abbrev AreEntries : {E : Type 0} → List (FileInfo E) → List (ℕ × FileInfo E) → Type 0
AreEntries files [] = Unit
AreEntries files (x ∷ bucket) = IsEntry files x × AreEntries files bucket

abbrev AreBuckets : {E : Type 0} → List (FileInfo E) → List (ℕ × List (ℕ × FileInfo E)) → Type 0
AreBuckets files [] = Unit
AreBuckets files (b ∷ buckets) = AreEntries files b.1 × AreBuckets files buckets

module _ {E : Type 0} (files : List (FileInfo E)) where
  insert_file-AreEntries :
      (x : ℕ × FileInfo E) (ys : List (ℕ × FileInfo E))
      → IsEntry files x
      → AreEntries files ys
      → AreEntries files (insert_file x ys)
  unfolding insert_file
  insert_file-AreEntries x [] h hs = (h, tt)
  insert_file-AreEntries x (y ∷ ys) h hs =
      if_rule (AreEntries files) (is_after x.1 y.1) (y ∷ insert_file x ys) (x ∷ y ∷ ys)
        (λ after. (hs.0, insert_file-AreEntries x ys h hs.1)) (λ before. (h, hs))

  sort-AreEntries : (xs : List (ℕ × FileInfo E)) → AreEntries files xs → AreEntries files (sort xs)
  unfolding sort
  sort-AreEntries [] hs = tt
  sort-AreEntries (x ∷ xs) hs = insert_file-AreEntries x (sort xs) hs.0 (sort-AreEntries xs hs.1)

  append-AreEntries :
      (xs : List (ℕ × FileInfo E)) (x : ℕ × FileInfo E)
      → AreEntries files xs
      → IsEntry files x
      → AreEntries files (xs ++ (x ∷ []))
  append-AreEntries [] x hs h = (h, tt)
  append-AreEntries (y ∷ xs) x hs h = (hs.0, append-AreEntries xs x hs.1 h)

  push-AreBuckets :
      (key : ℕ) (x : ℕ × FileInfo E) (buckets : List (ℕ × List (ℕ × FileInfo E)))
      → IsEntry files x
      → AreBuckets files buckets
      → AreBuckets files (push key x buckets)
  unfolding push
  push-AreBuckets key x [] h hs = ((h, tt), tt)
  push-AreBuckets key x (b ∷ buckets) h hs = elim (Bool-cases (key == b.0)) [
    | inl same ↦ rw same (append-AreEntries b.1 x hs.0 h, hs.1)
    | inr other ↦ elim (Bool-cases (ltb key b.0)) [
      | inl below ↦ rw (other, below) ((h, tt), hs)
      | inr above ↦ rw (other, above) (hs.0, push-AreBuckets key x buckets h hs.1)
    ]
  ]

  fill-AreBuckets :
      (idx : ℕ) (rest : List (FileInfo E)) (buckets : List (ℕ × List (ℕ × FileInfo E)))
      → ((j : ℕ) → size_at files (idx + j) ≡ size_at rest j)
      → AreSized rest
      → AreBuckets files buckets
      → AreBuckets files (fill idx rest buckets)
  unfolding fill
  fill-AreBuckets idx [] buckets behind small hs = hs
  fill-AreBuckets idx (f ∷ rest) buckets behind small hs =
      let here : idx ≡ idx + 0 = omega arith in
      let first : size_at files idx ≡ f.size = rw here (behind 0) in
      let later : (j : ℕ) → idx + 1 + j ≡ idx + suc j = λ j. omega arith in
      fill-AreBuckets (idx + 1) rest (push (content_code f.content_type) (idx, f) buckets)
        (λ j. rw (later j) (behind (suc j))) small.1
        (push-AreBuckets (content_code f.content_type) (idx, f) buckets (first, small.0) hs)

abbrev Within : List ℕ → ℕ → Type 0
Within current size = (length current ≡ 0) ⊎ ((length current ≡ 1) ⊎ (size ≤ max_solid_group_size))

-- The state of the loop over a bucket: the sum has not wrapped.
abbrev Current : {E : Type 0} → List (FileInfo E) → List ℕ → ℕ → Type 0
Current files current size = (size ≡ total_at files current) × (size < 2 ^ 63) × Within current size

-- Found groups, and the number behind them.
abbrev Found : {E M : Type 0} → List (FileInfo E) → ℕ → List (SolidGroup M) × ℕ → Type 0
Found files id found = AreGroups files id found.0 × (found.1 ≡ id + length found.0)

AreGroups-append :
    {E M : Type 0} (files : List (FileInfo E)) (id : ℕ) (xs ys : List (SolidGroup M))
    → AreGroups files id xs
    → AreGroups files (id + length xs) ys
    → AreGroups files id (xs ++ ys)
AreGroups-append files id [] ys h g =
    let e : id + 0 ≡ id = omega arith in subst (λ k. AreGroups files k ys) e g
AreGroups-append files id (x ∷ xs) ys (number, group, h) g =
    let e : id + suc (length xs) ≡ id + 1 + length xs = omega arith in
    (number, group, AreGroups-append files (id + 1) xs ys h (subst (λ k. AreGroups files k ys) e g))

drop_none :
    {E : Type 0} (files : List (FileInfo E)) (c : ℕ) (current : List ℕ) (size : ℕ)
    → Current files (c ∷ current) size
    → (length (c ∷ current) ≡ 1) ⊎ (total_at files (c ∷ current) ≤ max_solid_group_size)
drop_none files c current size (sum, low, inl none) = absurd (omega arith)
drop_none files c current size (sum, low, inr (inl one)) = inl one
drop_none files c current size (sum, low, inr (inr small)) = inr (omega (arith, sum, small))

module _ {E M : Type 0} (recommend : List E → ContentType → M) (files : List (FileInfo E)) where
  last_group :
      (method : M) (ct : ContentType) (id : ℕ) (current : List ℕ) (size : ℕ)
      → Current files current size
      → Found files id (split_files recommend method ct id current size [])
  unfolding split_files
  last_group method ct id [] size h = (tt, omega arith)
  last_group method ct id (c ∷ current) size h = (
    (
      refl,
      record { some_file = omega arith; sized = h.0; within = drop_none files c current size h },
      tt,
    ),
    omega arith,
  )

  -- A file alone.
  alone :
      (x : ℕ × FileInfo E) (size : ℕ)
      → IsEntry files x
      → size ≡ x.1.size
      → Current files (x.0 ∷ []) (size % 2 ^ 64)
  alone x size (at, low) e =
      let same : size % 2 ^ 64 ≡ size = omega (arith, low, e) in
      (omega (arith, same, at, e), omega (arith, same, low, e), inr (inl refl))

  -- One more file, where that is within the limit.
  added :
      (c : ℕ) (current : List ℕ) (size : ℕ) (x : ℕ × FileInfo E)
      → IsEntry files x
      → Current files (c ∷ current) size
      → (size + x.1.size) % 2 ^ 64 ≤ max_solid_group_size
      → Current files (c ∷ (current ++ (x.0 ∷ []))) ((size + x.1.size) % 2 ^ 64)
  added c current size x (at, low) (sum, below, within) small =
      let same : (size + x.1.size) % 2 ^ 64 ≡ size + x.1.size = omega (arith, low, below) in
      let more = total_at-append files (c ∷ current) x.0 in
      (omega (arith, same, more, sum, at), omega (arith, small), inr (inr small))

  split_files-Found :
      (method : M) (ct : ContentType) (id : ℕ) (current : List ℕ) (size : ℕ)
      (bucket : List (ℕ × FileInfo E))
      → AreEntries files bucket
      → Current files current size
      → Found files id (split_files recommend method ct id current size bucket)
  unfolding split_files
  split_files-Found method ct id current size [] hs h = last_group method ct id current size h
  split_files-Found method ct id [] size (x ∷ bucket) hs h =
      let total : size + x.1.size ≡ x.1.size = omega (arith, h.0) in
      let kept =
        split_files-Found method ct id (x.0 ∷ []) ((size + x.1.size) % 2 ^ 64) bucket hs.1
          (alone x (size + x.1.size) hs.0 total) in
      elim (Bool-cases (ltb max_solid_group_size ((size + x.1.size) % 2 ^ 64))) [
        | inl full ↦ rw full kept
        | inr fits ↦ rw fits kept
      ]
  split_files-Found method ct id (c ∷ current) size (x ∷ bucket) hs h =
      elim (Bool-cases (ltb max_solid_group_size ((size + x.1.size) % 2 ^ 64))) [
        | inl full ↦
            let (groups, next) =
              split_files-Found method ct (id + 1) (x.0 ∷ []) (x.1.size % 2 ^ 64) bucket hs.1
                (alone x x.1.size hs.0 refl) in
            rw full (
              (
                refl,
                record {
                  some_file = omega arith;
                  sized = h.0;
                  within = drop_none files c current size h;
                },
                groups,
              ),
              omega (arith, next),
            )
        | inr fits ↦
            let small : (size + x.1.size) % 2 ^ 64 ≤ max_solid_group_size = ground arith in
            rw fits (
              split_files-Found method ct id (c ∷ (current ++ (x.0 ∷ [])))
                ((size + x.1.size) % 2 ^ 64) bucket hs.1 (added c current size x hs.0 h small))
      ]

  split_bucket-Found :
      (id : ℕ) (bucket : List (ℕ × FileInfo E))
      → AreEntries files bucket
      → Found files id (split_bucket recommend id bucket)
  unfolding split_bucket
  split_bucket-Found id [] hs = (tt, omega arith)
  split_bucket-Found id (x ∷ bucket) hs =
      split_files-Found _ _ id [] 0 (x ∷ bucket) hs (refl, omega arith, inl refl)

  groups_loop-AreGroups :
      (id : ℕ) (buckets : List (ℕ × List (ℕ × FileInfo E)))
      → AreBuckets files buckets
      → AreGroups files id (groups_loop recommend id buckets)
  unfolding groups_loop
  groups_loop-AreGroups id [] hs = tt
  groups_loop-AreGroups id (b ∷ buckets) hs =
      let found = split_bucket recommend id (sort b.1) in
      let (groups, next) = split_bucket-Found id (sort b.1) (sort-AreEntries files b.1 hs.0) in
      AreGroups-append files id found.0 (groups_loop recommend found.1 buckets) groups (
        subst (λ k. AreGroups files k (groups_loop recommend found.1 buckets)) next
          (groups_loop-AreGroups found.1 buckets hs.1))

  -- Where every file's size is below 2^63, the groups are numbered from 0 on, each has a file, the total
  -- size of each is the sum of the sizes of the files at its indices, and that sum is within the limit
  -- in a group with more than one file.
  pub group_files-AreGroups : AreSized files → AreGroups files 0 (group_files recommend files)
  unfolding group_files
  group_files-AreGroups small = groups_loop-AreGroups 0 (fill 0 files []) (
      fill-AreBuckets files 0 files [] (λ j. let e : 0 + j ≡ j = omega arith in rw e refl) small tt)
