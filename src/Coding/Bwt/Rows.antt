-- ===== src/Coding/Bwt/Rows.antt =====
-- The table leads from a row of the sorted rotations to the row of the rotation by one more byte.
use aether_arch.Base.{
  ℕ, zero, suc, ◌+◌, ◌-◌, ◌≤◌, ◌<◌, ◌≡◌, refl, sym, ap, ◌∙◌, Bool, true, ◌&&◌, ◌||◌, not, List, [],
  ◌∷◌, ◌++◌, length, map, length-map, get_or, take, drop, ltb, ◌==◌, arith, All, IsBytes,
}
use mathlib.Core.Path.{subst}
use aether_arch.Coding.Bwt.{lf_table}
use aether_arch.Coding.Bwt.Counting.{bit, count, count-append, count-map}
use aether_arch.Coding.Bwt.Order.{le, le_refl, le-take, IsSorted, row_at}
use aether_arch.Coding.Bwt.Table.{lf_table_entry}

split_at :
    (rows : List (List ℕ)) (j : ℕ)
    → j < length rows
    → take j rows ++ (get_or rows j [] ∷ drop (suc j) rows) ≡ rows
split_at [] j h = absurd (omega arith)
split_at (r ∷ rows) zero h = refl
split_at (r ∷ rows) (suc j) h = ap (λ t. r ∷ t) (split_at rows j (omega arith))

pub row_in :
    (P : List ℕ → Type 0) (rows : List (List ℕ)) (j : ℕ)
    → All P rows
    → j < length rows
    → P (get_or rows j [])
row_in P [] j h lt = absurd (omega arith)
row_in P (r ∷ rows) zero (first, h) lt = first
row_in P (r ∷ rows) (suc j) (first, h) lt = row_in P rows j h (omega arith)

rows_before :
    (rows : List (List ℕ)) (j : ℕ)
    → IsSorted rows
    → j < length rows
    → All (λ s. le s (get_or rows j []) ≡ true) (take j rows)
rows_before [] j sorted h = absurd (omega arith)
rows_before (r ∷ rows) zero sorted h = tt
rows_before (r ∷ rows) (suc j) (later, sorted) h = (
  row_in (λ s. le r s ≡ true) rows j later (omega arith),
  rows_before rows j sorted (omega arith),
)

rows_after :
    (rows : List (List ℕ)) (j : ℕ)
    → IsSorted rows
    → j < length rows
    → All (λ s. le (get_or rows j []) s ≡ true) (drop (suc j) rows)
rows_after [] j sorted h = absurd (omega arith)
rows_after (r ∷ rows) zero (later, sorted) h = later
rows_after (r ∷ rows) (suc j) (later, sorted) h = rows_after rows j sorted (omega arith)

module _ (n : ℕ) where
  -- The last byte of a row goes to its front.
  abbrev pub last : List ℕ → ℕ
  last r = get_or r (n - 1) 0

  abbrev pub rotate : List ℕ → List ℕ
  rotate r = last r ∷ take (n - 1) r

  -- Which rows are before the rotation of `row`, and which are not behind it.
  abbrev is_before : List ℕ → List ℕ → Bool
  is_before row r = not (le (rotate row) (rotate r))

  abbrev is_up_to : List ℕ → List ℕ → Bool
  is_up_to row r = le (rotate r) (rotate row)

  abbrev smaller : List ℕ → List ℕ → Bool
  smaller row r = ltb (last r) (last row)

  abbrev alike : List ℕ → List ℕ → Bool
  alike row r = last r == last row

  compare_heads :
      (b c : ℕ) (up down : Bool)
      → (bit (not (ltb c b || (c == b && down))) ≤ bit (ltb b c) + bit (b == c))
        × (down ≡ true → bit (not (ltb c b || (c == b && down))) ≤ bit (ltb b c))
        × (bit (ltb b c) ≤ bit (ltb b c || (b == c && up)))
        × (up ≡ true → bit (ltb b c) + bit (b == c) ≤ bit (ltb b c || (b == c && up)))
  compare_heads b c up down = (ground arith, λ h. ground arith, ground arith, λ h. ground arith)

  counts_before :
      (row : List ℕ) (rows : List (List ℕ))
      → All (λ s. le s row ≡ true) rows
      → (count (is_before row) rows ≤ count (smaller row) rows + count (alike row) rows)
        × (count (smaller row) rows + count (alike row) rows ≤ count (is_up_to row) rows)
  counts_before row [] h = (omega arith, omega arith)
  counts_before row (r ∷ rows) (first, h) =
      let (low, high) = counts_before row rows h in
      let heads =
        compare_heads (last r) (last row) (le (take (n - 1) r) (take (n - 1) row))
          (le (take (n - 1) row) (take (n - 1) r)) in
      (omega (arith, low, heads.0), omega (arith, high, heads.3 (le-take (n - 1) r row first)))

  counts_after :
      (row : List ℕ) (rows : List (List ℕ))
      → All (λ s. le row s ≡ true) rows
      → (count (is_before row) rows ≤ count (smaller row) rows)
        × (count (smaller row) rows ≤ count (is_up_to row) rows)
  counts_after row [] h = (omega arith, omega arith)
  counts_after row (r ∷ rows) (first, h) =
      let (low, high) = counts_after row rows h in
      let heads =
        compare_heads (last r) (last row) (le (take (n - 1) r) (take (n - 1) row))
          (le (take (n - 1) row) (take (n - 1) r)) in
      (omega (arith, low, heads.1 (le-take (n - 1) row r first)), omega (arith, high, heads.2))

  -- What the sorted rotations of a text are for the table.
  pub record AreRows (rows : List (List ℕ)) (bwt : List ℕ) : Type 0 where
    pub number : length rows ≡ n
    pub width : All (λ r. length r ≡ n) rows
    pub sorted : IsSorted rows
    pub lasts : map last rows ≡ bwt
    pub bytes : IsBytes bwt
    pub closed : (f : List ℕ → Bool) → count f (map rotate rows) ≡ count f rows

  pub map-get :
      (rows : List (List ℕ)) (j : ℕ)
      → j < length rows
      → get_or (map last rows) j 0 ≡ last (get_or rows j [])
  map-get [] j h = absurd (omega arith)
  map-get (r ∷ rows) zero h = refl
  map-get (r ∷ rows) (suc j) h = map-get rows j (omega arith)

  take-map : (rows : List (List ℕ)) (j : ℕ) → take j (map last rows) ≡ map last (take j rows)
  take-map rows zero = refl
  take-map [] (suc j) = refl
  take-map (r ∷ rows) (suc j) = ap (λ t. last r ∷ t) (take-map rows j)

  -- The entry of the table, in terms of the rows.
  entry_rows :
      (rows : List (List ℕ)) (bwt : List ℕ) (j : ℕ)
      → AreRows rows bwt
      → j < length rows
      → get_or (lf_table bwt) j 0
        ≡ count (smaller (get_or rows j [])) rows + count (alike (get_or rows j [])) (take j rows)
  entry_rows rows bwt j h lt =
      let row = get_or rows j [] in
      let bytes = subst IsBytes (sym h.lasts) h.bytes in
      let entry =
        lf_table_entry (map last rows) j bytes (omega (arith, length-map rows last, lt)) in
      let at_j = map-get rows j lt in
      let smaller_eq =
        ap (λ c. count (λ b. ltb b c) (map last rows)) at_j
        ∙ count-map (λ b. ltb b (last row)) last rows in
      let alike_eq =
        ap (λ c. count (λ b. b == c) (take j (map last rows))) at_j
        ∙ ap (count (λ b. b == last row)) (take-map rows j)
        ∙ count-map (λ b. b == last row) last (take j rows) in
      omega (arith, ap (λ b. get_or (lf_table b) j 0) h.lasts, entry, smaller_eq, alike_eq)

  pub lf_table-rotate :
      (rows : List (List ℕ)) (bwt : List ℕ) (j : ℕ)
      → AreRows rows bwt
      → j < length rows
      → get_or rows (get_or (lf_table bwt) j 0) [] ≡ rotate (get_or rows j [])
  lf_table-rotate rows bwt j h lt =
      let row = get_or rows j [] in
      let k = get_or (lf_table bwt) j 0 in
      let entry = entry_rows rows bwt j h lt in
      let pre = take j rows in
      let post = drop (suc j) rows in
      let parts = split_at rows j lt in
      let before = counts_before row pre (rows_before rows j h.sorted lt) in
      let after = counts_after row post (rows_after rows j h.sorted lt) in
      let split : (f : List ℕ → Bool) → count f rows ≡ count f pre + (bit (f row) + count f post) =
        λ f. ap (count f) (sym parts) ∙ count-append f pre (row ∷ post) in
      let rotated : (f : List ℕ → Bool) → count f rows ≡ count (λ r. f (rotate r)) rows =
        λ f. sym (h.closed f) ∙ count-map f rotate rows in
      let itself = le_refl (rotate row) in
      let not_itself : bit (is_before row row) ≡ 0 = rw itself in
      let up_to_itself : bit (is_up_to row row) ≡ 1 = rw itself in
      let none_smaller : bit (smaller row row) ≡ 0 = ground arith in
      row_at (rotate row) rows k h.sorted
        (omega (
          arith,
          entry,
          rotated (λ s. not (le (rotate row) s)),
          split (is_before row),
          split (smaller row),
          before.0,
          after.0,
          not_itself,
          none_smaller,
        ))
        (omega (
          arith,
          entry,
          rotated (λ s. le s (rotate row)),
          split (is_up_to row),
          split (smaller row),
          before.1,
          after.1,
          up_to_itself,
          none_smaller,
        ))
