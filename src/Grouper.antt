-- ===== src/Grouper.antt =====
-- aether-core/src/grouper.rs: files grouped by content type.
mod Tests
pub mod Partition
pub mod Sizes
use aether_arch.Base.{
  ℕ, zero, suc, ◌+◌, ◌*◌, ◌%◌, ◌^◌, Bool, true, false, ◌&&◌, not, List, [], ◌∷◌, ◌++◌, map, ltb,
  ◌==◌, if◌then◌else◌,
}
use Prim.Native.Nat.{Ordering, compare}
use aether_arch.Archive.Codes.{ContentType, content_code}

abbrev pub max_solid_group_size : ℕ
max_solid_group_size = 256 * 1024 * 1024

-- `M` are the recommended methods.
pub record SolidGroup (M : Type 0) : Type 0 where
  pub group_id : ℕ
  pub content_type : ContentType
  pub recommended_method : M
  pub file_indices : List ℕ
  pub total_size : ℕ

-- `E` are the floating-point entropies. A path is the list of its bytes, by which strings compare.
pub record FileInfo (E : Type 0) : Type 0 where
  pub path : List ℕ
  pub size : ℕ
  pub content_type : ContentType
  pub mean_entropy : E

-- `path.rsplit('.').next()`: what is behind the last dot, or the whole path.
unfoldable pub behind_dot : List ℕ → List ℕ → List ℕ
behind_dot found [] = found
behind_dot found (b ∷ rest) = behind_dot (if b == b'.' then rest else found) rest

unfoldable pub compare_bytes : List ℕ → List ℕ → Ordering
compare_bytes [] [] = Ordering.eq
compare_bytes [] (y ∷ ys) = Ordering.lt
compare_bytes (x ∷ xs) [] = Ordering.gt
compare_bytes (x ∷ xs) (y ∷ ys) =
    let rest = compare_bytes xs ys in
    elim (compare x y) [
      | Ordering.eq ↦ rest
      | Ordering.lt ↦ Ordering.lt
      | Ordering.gt ↦ Ordering.gt
    ]

abbrev is_gt : Ordering → Bool
is_gt Ordering.gt = true
is_gt o = false

module _ {E : Type 0} where
  -- The comparison of `sort_by`: whether it is `Greater`.
  unfoldable pub is_after : FileInfo E → FileInfo E → Bool
  unfolding behind_dot compare_bytes
  is_after a b = elim (compare_bytes (behind_dot a.path a.path) (behind_dot b.path b.path)) [
    | Ordering.eq ↦ is_gt (compare a.size b.size)
    | Ordering.lt ↦ false
    | Ordering.gt ↦ true
  ]

  unfoldable pub insert_file : ℕ × FileInfo E → List (ℕ × FileInfo E) → List (ℕ × FileInfo E)
  unfolding is_after
  insert_file x [] = x ∷ []
  insert_file x (y ∷ ys) =
      let rest = insert_file x ys in if is_after x.1 y.1 then y ∷ rest else x ∷ y ∷ ys

  -- `sort_by` is stable: of two equal files the first stays first.
  unfoldable pub sort : List (ℕ × FileInfo E) → List (ℕ × FileInfo E)
  unfolding insert_file
  sort [] = []
  sort (x ∷ xs) = insert_file x (sort xs)

  -- `entry(key).or_default().push(...)`, in a map that is iterated by ascending keys.
  unfoldable pub push :
      ℕ → ℕ × FileInfo E → List (ℕ × List (ℕ × FileInfo E)) → List (ℕ × List (ℕ × FileInfo E))
  push key x [] = (key, x ∷ []) ∷ []
  push key x (b ∷ buckets) =
      let rest = push key x buckets in
      if key == b.0
      then (b.0, b.1 ++ (x ∷ [])) ∷ buckets
      else if ltb key b.0
      then (key, x ∷ []) ∷ b ∷ buckets
      else b ∷ rest

  unfoldable pub fill :
      ℕ → List (FileInfo E) → List (ℕ × List (ℕ × FileInfo E)) → List (ℕ × List (ℕ × FileInfo E))
  unfolding push
  fill idx [] buckets = buckets
  fill idx (file ∷ files) buckets =
      fill (idx + 1) files (push (content_code file.content_type) (idx, file) buckets)

abbrev pub is_empty : List ℕ → Bool
is_empty [] = true
is_empty (x ∷ xs) = false

-- The mean of the entropies and `analyzer::recommend_method_for` are one parameter.
module _ {E M : Type 0} (recommend : List E → ContentType → M) where
  -- The loop over a bucket with the flush behind it: the groups, and the next id.
  unfoldable pub split_files :
      M → ContentType → ℕ → List ℕ → ℕ → List (ℕ × FileInfo E) → List (SolidGroup M) × ℕ
  split_files method ct id current current_size [] = if is_empty current then ([], id) else (
    record {
      group_id = id;
      content_type = ct;
      recommended_method = method;
      file_indices = current;
      total_size = current_size;
    }
        ∷ [],
    id + 1,
  )
  split_files method ct id current current_size (x ∷ bucket) =
      let flushed = split_files method ct (id + 1) (x.0 ∷ []) (x.1.size % 2 ^ 64) bucket in
      let kept =
        split_files method ct id (current ++ (x.0 ∷ [])) ((current_size + x.1.size) % 2 ^ 64)
          bucket in
      if ltb max_solid_group_size ((current_size + x.1.size) % 2 ^ 64) && not (is_empty current)
      then (
        record {
          group_id = id;
          content_type = ct;
          recommended_method = method;
          file_indices = current;
          total_size = current_size;
        }
            ∷ flushed.0,
        flushed.1,
      )
      else kept

  -- A bucket has a file, from which it takes its content type.
  unfoldable pub split_bucket : ℕ → List (ℕ × FileInfo E) → List (SolidGroup M) × ℕ
  unfolding split_files
  split_bucket id [] = ([], id)
  split_bucket id (x ∷ bucket) =
      split_files (recommend (map (λ y. y.1.mean_entropy) (x ∷ bucket)) x.1.content_type)
        x.1.content_type id [] 0 (x ∷ bucket)

  unfoldable pub groups_loop : ℕ → List (ℕ × List (ℕ × FileInfo E)) → List (SolidGroup M)
  unfolding sort split_bucket
  groups_loop id [] = []
  groups_loop id (b ∷ buckets) =
      let found = split_bucket id (sort b.1) in found.0 ++ groups_loop found.1 buckets

  unfoldable pub group_files : List (FileInfo E) → List (SolidGroup M)
  unfolding fill groups_loop
  group_files files = groups_loop 0 (fill 0 files [])
