-- ===== src/Grouper/Tests.antt =====
-- A run of the grouper, and its theorems at concrete files.
use aether_arch.Base.{ℕ, ◌*◌, ◌≡◌, refl, List, [], ◌∷◌, length, map, arith}
use aether_arch.Archive.Codes.{ContentType, text, image}
use aether_arch.Grouper.{FileInfo, group_files}
use aether_arch.Grouper.Partition.{occurs, indices, occurs-group_files}
use aether_arch.Grouper.Sizes.{AreGroups, group_files-AreGroups}

abbrev no_method : List ℕ → ContentType → ℕ
no_method entropies ct = length entropies

abbrev file : ℕ → ℕ → ContentType → FileInfo ℕ
file letter size ct = record {
  path = letter ∷ b'.' ∷ b'x' ∷ [];
  size = size;
  content_type = ct;
  mean_entropy = 4;
}

-- Two large texts around an image, and a small text.
abbrev files : List (FileInfo ℕ)
files =
    file b'a' (200 * 1024 * 1024) text
    ∷ file b'b' 100 image
    ∷ file b'c' (200 * 1024 * 1024) text
    ∷ file b'd' 7 text
    ∷ []

group_runs :
    map (λ g. g.file_indices) (group_files no_method files)
    ≡ (3 ∷ 0 ∷ []) ∷ (2 ∷ []) ∷ (1 ∷ []) ∷ []
unfolding group_files
group_runs = refl

occurs-group_files_example : occurs 2 (indices (group_files no_method files)) ≡ 1
occurs-group_files_example = occurs-group_files no_method 2 files

group_files-AreGroups_example : AreGroups files 0 (group_files no_method files)
group_files-AreGroups_example =
    group_files-AreGroups no_method files
      (omega arith, (omega arith, (omega arith, (omega arith, tt))))
