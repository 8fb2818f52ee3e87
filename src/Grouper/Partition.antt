-- ===== src/Grouper/Partition.antt =====
-- Every file is in one group.
use aether_arch.Base.{
  ℕ, ◌+◌, ◌%◌, ◌^◌, ◌≡◌, refl, ◌∙◌, ◌&&◌, not, List, [], ◌∷◌, ◌++◌, map, length, ltb, leb, ◌==◌,
  if◌then◌else◌, if_rule, arith, Bool-cases, inl, inr,
}
use aether_arch.Archive.Codes.{ContentType, content_code}
use aether_arch.Grouper.{
  SolidGroup, FileInfo, max_solid_group_size, is_empty, insert_file, sort, push, fill, split_files,
  split_bucket, groups_loop, group_files, is_after,
}

-- How often an index occurs.
abbrev pub occurs : ℕ → List ℕ → ℕ
occurs i [] = 0
occurs i (x ∷ xs) = (if i == x then 1 else 0) + occurs i xs

occurs-append : (i : ℕ) (xs ys : List ℕ) → occurs i (xs ++ ys) ≡ occurs i xs + occurs i ys
occurs-append i [] ys = omega arith
occurs-append i (x ∷ xs) ys = omega (arith, occurs-append i xs ys)

-- The indices of all groups.
abbrev pub indices : {M : Type 0} → List (SolidGroup M) → List ℕ
indices [] = []
indices (g ∷ groups) = g.file_indices ++ indices groups

indices-append :
    {M : Type 0} (i : ℕ) (xs ys : List (SolidGroup M))
    → occurs i (indices (xs ++ ys)) ≡ occurs i (indices xs) + occurs i (indices ys)
indices-append i [] ys = omega arith
indices-append i (x ∷ xs) ys = omega (
  arith,
  occurs-append i x.file_indices (indices (xs ++ ys)),
  occurs-append i x.file_indices (indices xs),
  indices-append i xs ys,
)

module _ {E : Type 0} (i : ℕ) where
  abbrev among : List (ℕ × FileInfo E) → ℕ
  among xs = occurs i (map (λ x. x.0) xs)

  among-insert_file :
      (x : ℕ × FileInfo E) (ys : List (ℕ × FileInfo E)) → among (insert_file x ys) ≡ among (x ∷ ys)
  unfolding insert_file
  among-insert_file x [] = refl
  among-insert_file x (y ∷ ys) =
      if_rule (λ zs. among zs ≡ among (x ∷ y ∷ ys)) (is_after x.1 y.1) _ (x ∷ y ∷ ys)
        (λ after. omega (arith, among-insert_file x ys)) (λ before. refl)

  among-sort : (xs : List (ℕ × FileInfo E)) → among (sort xs) ≡ among xs
  unfolding sort
  among-sort [] = refl
  among-sort (x ∷ xs) = omega (arith, among-insert_file x (sort xs), among-sort xs)

  among-append : (xs ys : List (ℕ × FileInfo E)) → among (xs ++ ys) ≡ among xs + among ys
  among-append [] ys = omega arith
  among-append (x ∷ xs) ys = omega (arith, among-append xs ys)

  abbrev in_buckets : List (ℕ × List (ℕ × FileInfo E)) → ℕ
  in_buckets [] = 0
  in_buckets (b ∷ buckets) = among b.1 + in_buckets buckets

  in_buckets-push :
      (key : ℕ) (x : ℕ × FileInfo E) (buckets : List (ℕ × List (ℕ × FileInfo E)))
      → in_buckets (push key x buckets) ≡ (if i == x.0 then 1 else 0) + in_buckets buckets
  unfolding push
  in_buckets-push key x [] = omega arith
  in_buckets-push key x (b ∷ buckets) = elim (Bool-cases (key == b.0)) [
    | inl same ↦ rw same (omega (arith, among-append b.1 (x ∷ [])))
    | inr other ↦ elim (Bool-cases (ltb key b.0)) [
      | inl below ↦ rw (other, below) (omega arith)
      | inr above ↦ rw (other, above) (omega (arith, in_buckets-push key x buckets))
    ]
  ]

  in_buckets-fill :
      (idx : ℕ) (files : List (FileInfo E)) (buckets : List (ℕ × List (ℕ × FileInfo E)))
      → in_buckets (fill idx files buckets)
        ≡ (if leb idx i && ltb i (idx + length files) then 1 else 0) + in_buckets buckets
  unfolding fill
  in_buckets-fill idx [] buckets = ground arith
  in_buckets-fill idx (f ∷ files) buckets =
      let next =
        in_buckets-fill (idx + 1) files (push (content_code f.content_type) (idx, f) buckets) in
      let first = in_buckets-push (content_code f.content_type) (idx, f) buckets in
      ground (arith, next, first)

module _ {E M : Type 0} (recommend : List E → ContentType → M) (i : ℕ) where
  occurs-split_files :
      (method : M) (ct : ContentType) (id : ℕ) (current : List ℕ) (size : ℕ)
      (bucket : List (ℕ × FileInfo E))
      → occurs i (indices (split_files recommend method ct id current size bucket).0)
        ≡ occurs i current + among i bucket
  unfolding split_files
  occurs-split_files method ct id [] size [] = refl
  occurs-split_files method ct id (c ∷ current) size [] =
      omega (arith, occurs-append i (c ∷ current) [])
  occurs-split_files method ct id current size (x ∷ bucket) =
      let flushed =
        split_files recommend method ct (id + 1) (x.0 ∷ []) (x.1.size % 2 ^ 64) bucket in
      let after_flush =
        occurs-split_files method ct (id + 1) (x.0 ∷ []) (x.1.size % 2 ^ 64) bucket in
      let after_push =
        occurs-split_files method ct id (current ++ (x.0 ∷ [])) ((size + x.1.size) % 2 ^ 64)
          bucket in
      if_rule
        (λ (found : List (SolidGroup M) × ℕ).
          occurs i (indices found.0) ≡ occurs i current + among i (x ∷ bucket))
        (ltb max_solid_group_size ((size + x.1.size) % 2 ^ 64) && not (is_empty current)) _ _
        (λ full. omega (arith, occurs-append i current (indices flushed.0), after_flush))
        (λ fits. omega (arith, occurs-append i current (x.0 ∷ []), after_push))

  occurs-split_bucket :
      (id : ℕ) (bucket : List (ℕ × FileInfo E))
      → occurs i (indices (split_bucket recommend id bucket).0) ≡ among i bucket
  unfolding split_bucket
  occurs-split_bucket id [] = refl
  occurs-split_bucket id (x ∷ bucket) = occurs-split_files _ _ id [] 0 (x ∷ bucket) ∙ omega arith

  occurs-groups_loop :
      (id : ℕ) (buckets : List (ℕ × List (ℕ × FileInfo E)))
      → occurs i (indices (groups_loop recommend id buckets)) ≡ in_buckets i buckets
  unfolding groups_loop
  occurs-groups_loop id [] = refl
  occurs-groups_loop id (b ∷ buckets) =
      let found = split_bucket recommend id (sort b.1) in
      omega (
        arith,
        indices-append i found.0 (groups_loop recommend found.1 buckets),
        occurs-split_bucket id (sort b.1),
        among-sort i b.1,
        occurs-groups_loop found.1 buckets,
      )

  -- However entropies and content types are judged, the index of each file occurs once in the groups
  -- together, and no other index occurs.
  pub occurs-group_files :
      (files : List (FileInfo E))
      → occurs i (indices (group_files recommend files)) ≡ (if ltb i (length files) then 1 else 0)
  unfolding group_files
  occurs-group_files files =
      let total = occurs-groups_loop 0 (fill 0 files []) in
      let filled = in_buckets-fill i 0 files [] in ground (arith, total, filled)
