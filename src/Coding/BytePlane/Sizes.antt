-- ===== src/Coding/BytePlane/Sizes.antt =====
-- The sizes of the stored planes.
use aether_arch.Base.{
  ℕ, ◌*◌, ◌≤◌, ◌≡◌, refl, List, [], ◌∷◌, ◌++◌, map, length, arith, All, le→leb, take-append,
  drop-append, append_assoc, to_le, length-to_le, from_le-to_le, length-append,
}
use aether_arch.Errors.{ok}
use aether_arch.Coding.BytePlane.{
  concat, total, write_sizes, read_sizes, max_decompressed_block_size,
}

pub length-write_sizes : (es : List (List ℕ)) → length (write_sizes es) ≡ 4 * length es
length-write_sizes [] = omega arith
length-write_sizes (e ∷ es) = omega (
  arith,
  length-append (to_le 4 (length e)) (write_sizes es),
  length-to_le 4 (length e),
  length-write_sizes es,
)

pub length-concat : (es : List (List ℕ)) → length (concat es) ≡ total (map length es)
length-concat [] = refl
length-concat (e ∷ es) = omega (arith, length-append e (concat es), length-concat es)

-- Sizes within the limit are read back.
pub read_sizes-write_sizes :
    (es : List (List ℕ)) (rest : List ℕ)
    → All (λ e. length e ≤ max_decompressed_block_size) es
    → read_sizes (length es) (write_sizes es ++ rest) ≡ ok (map length es)
unfolding read_sizes
read_sizes-write_sizes [] rest h = refl
read_sizes-write_sizes (e ∷ es) rest (fits, h) =
    let word = to_le 4 (length e) in
    let behind = write_sizes es ++ rest in
    let four_bytes = length-to_le 4 (length e) in
    rw (append_assoc word (write_sizes es) rest) (
      rw (take-append 4 word behind four_bytes, drop-append 4 word behind four_bytes)
        (rw (from_le-to_le 4 (length e) (omega (arith, fits))) (
          rw (le→leb (length e) max_decompressed_block_size fits)
            (rw (read_sizes-write_sizes es rest h)))))
