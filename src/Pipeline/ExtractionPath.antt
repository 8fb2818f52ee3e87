-- ===== src/Pipeline/ExtractionPath.antt =====
-- aether-core/src/pipeline/decompress.rs: validate_extraction_path.
use aether_arch.Base.{
  ℕ, ◌-◌, Bool, false, ◌&&◌, ◌||◌, not, List, [], ◌∷◌, length, get_or, take, leb, ◌==◌,
  if◌then◌else◌, bytes_eq,
}
use aether_arch.Errors.{Result, path_traversal, resource_limit_exceeded, ◌>>◌, guard}
use aether_arch.Archive.Files.{
  contains_nul, starts_with_separator, has_drive, components, has_dot_dot,
}
use aether_arch.Archive.Codes.{max_path_length}

-- The last of the components: `rsplit(..).next()`.
unfoldable pub last_component : List (List ℕ) → List ℕ
last_component [] = []
last_component (c ∷ []) = c
last_component (c ∷ d ∷ cs) = last_component (d ∷ cs)

-- What stands before the first dot.
unfoldable pub stem : List ℕ → List ℕ
stem [] = []
stem (b ∷ bs) = if b == b'.' then [] else b ∷ stem bs

-- `to_ascii_uppercase`
abbrev pub uppercase : ℕ → ℕ
uppercase b = if leb b'a' b && leb b b'z' then b - 32 else b

unfoldable pub to_upper : List ℕ → List ℕ
to_upper [] = []
to_upper (b ∷ bs) = uppercase b ∷ to_upper bs

abbrev pub word : ℕ → ℕ → ℕ → List ℕ
word a b c = a ∷ b ∷ c ∷ []

unfoldable pub is_reserved : List ℕ → Bool
unfolding bytes_eq
is_reserved upper =
    bytes_eq upper (word b'C' b'O' b'N')
    || (bytes_eq upper (word b'P' b'R' b'N')
        || (bytes_eq upper (word b'A' b'U' b'X')
            || (bytes_eq upper (word b'N' b'U' b'L')
                || (length upper == 4
                    && ((bytes_eq (take 3 upper) (word b'C' b'O' b'M')
                          || bytes_eq (take 3 upper) (word b'L' b'P' b'T'))
                        && (leb b'1' (get_or upper 3 0) && leb (get_or upper 3 0) b'9'))))))

unfoldable pub ends_unsafe : List ℕ → Bool
ends_unsafe [] = false
ends_unsafe (b ∷ []) = b == b'.' || b == b' '
ends_unsafe (b ∷ c ∷ bs) = ends_unsafe (c ∷ bs)

unfoldable pub validate_extraction_path : List ℕ → Result (Unit {0})
unfolding contains_nul starts_with_separator has_drive components has_dot_dot last_component stem
    to_upper is_reserved ends_unsafe
validate_extraction_path path = do
  guard (not (contains_nul path)) path_traversal
  guard (not (starts_with_separator path)) path_traversal
  guard (not (has_drive path)) path_traversal
  guard (not (has_dot_dot (components path))) path_traversal
  guard (leb (length path) max_path_length) resource_limit_exceeded
  let filename = last_component (components path)
  guard (not (is_reserved (to_upper (stem filename)))) path_traversal
  guard (not (ends_unsafe filename)) path_traversal
