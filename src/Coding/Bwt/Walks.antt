-- ===== src/Coding/Bwt/Walks.antt =====
-- The walks of the inverse transform over one table: they bring back a row of the sorted rotations.
use aether_arch.Base.{
  ℕ, zero, suc, ◌+◌, ◌-◌, ◌*◌, ◌/◌, ◌%◌, ◌^◌, ◌≤◌, ◌<◌, ◌≡◌, refl, sym, ap, ◌∙◌, List, [], ◌∷◌,
  ◌++◌, append_assoc, length, length-take_le, drop_all, length-map, get_or, take, drop, arith,
}
use aether_arch.Coding.Bwt.{lf_table, walk_arrays, pack, walk_packed}
use aether_arch.Coding.Bwt.Reads.{byte_at, drop-append_le, take_last}
use aether_arch.Coding.Bwt.Table.{lf_table_bounded, length-lf_table}
use aether_arch.Coding.Bwt.Rows.{last, rotate, AreRows, lf_table-rotate, row_in, map-get}

pub length-pack : (lf bwt : List ℕ) → length lf ≡ length bwt → length (pack lf bwt) ≡ length bwt
unfolding pack
length-pack [] [] e = refl
length-pack [] (b ∷ bwt) e = absurd (omega arith)
length-pack (l ∷ lf) [] e = absurd (omega arith)
length-pack (l ∷ lf) (b ∷ bwt) e = ap suc (length-pack lf bwt (omega arith))

pub pack_entry :
    (lf bwt : List ℕ) (i : ℕ)
    → length lf ≡ length bwt
    → i < length bwt
    → get_or (pack lf bwt) i 0 ≡ get_or lf i 0 * 256 % 2 ^ 32 + get_or bwt i 0
unfolding pack
pack_entry lf [] i e lt = absurd (omega arith)
pack_entry [] (b ∷ bwt) i e lt = absurd (omega arith)
pack_entry (l ∷ lf) (b ∷ bwt) zero e lt = refl
pack_entry (l ∷ lf) (b ∷ bwt) (suc i) e lt = pack_entry lf bwt i (omega arith) (omega arith)

pub unpack :
    (l b : ℕ)
    → l < 2 ^ 24
    → b < 256
    → ((l * 256 % 2 ^ 32 + b) / 256 ≡ l) × ((l * 256 % 2 ^ 32 + b) % 256 ≡ b)
unpack l b small byte = (omega arith, omega arith)

module _ (n : ℕ) (rows : List (List ℕ)) (bwt : List ℕ) (h : AreRows n rows bwt) where
  abbrev pub row : ℕ → List ℕ
  row i = get_or rows i []

  abbrev pub lf : ℕ → ℕ
  lf i = get_or (lf_table bwt) i 0

  pub same : length bwt ≡ n
  same = ap length (sym h.lasts) ∙ length-map rows (last n) ∙ h.number

  pub length-row : (i : ℕ) → i < n → length (row i) ≡ n
  length-row i lt = row_in (λ r. length r ≡ n) rows i h.width (omega (arith, h.number))

  pub lf_bounded : (i : ℕ) → i < n → lf i < n
  lf_bounded i lt = omega (arith, same, lf_table_bounded bwt i h.bytes (omega (arith, same)))

  pub row-lf : (i : ℕ) → i < n → row (lf i) ≡ rotate n (row i)
  row-lf i lt = lf_table-rotate n rows bwt i h (omega (arith, h.number))

  pub last-row : (i : ℕ) → i < n → get_or bwt i 0 ≡ last n (row i)
  last-row i lt = ap (λ b. get_or b i 0) (sym h.lasts) ∙ map-get n rows i (omega (arith, h.number))

  pub row_parts : (i : ℕ) → i < n → take (n - 1) (row i) ++ (last n (row i) ∷ []) ≡ row i
  row_parts i lt = take_last (n - 1) (row i) (omega (arith, length-row i lt))

  pub tail_step :
      (i k : ℕ) (output : List ℕ)
      → i < n
      → k < n
      → drop (suc k) (row (lf i)) ++ (get_or bwt i 0 ∷ output) ≡ drop k (row i) ++ output
  tail_step i k output lt in_range =
      let front = take (n - 1) (row i) in
      let size : k ≤ length front =
        omega (arith, length-take_le (n - 1) (row i) (omega (arith, length-row i lt))) in
      ap (λ r. drop (suc k) r ++ (get_or bwt i 0 ∷ output)) (row-lf i lt)
      ∙ ap (λ b. drop k front ++ (b ∷ output)) (last-row i lt)
      ∙ sym (append_assoc (drop k front) (last n (row i) ∷ []) output)
      ∙ ap (λ r. r ++ output)
          (sym (drop-append_le k front (last n (row i) ∷ []) size) ∙ ap (drop k) (row_parts i lt))

  pub walk_arrays-row :
      (slots i : ℕ) (output : List ℕ)
      → slots ≤ n
      → i < n
      → walk_arrays bwt (lf_table bwt) slots i output ≡ drop (n - slots) (row i) ++ output
  unfolding walk_arrays
  walk_arrays-row zero i output le lt =
      sym (ap (λ r. r ++ output) (drop_all (n - 0) (row i) (omega (arith, length-row i lt))))
  walk_arrays-row (suc slots) i output le lt =
      let e : n - slots ≡ suc (n - suc slots) = omega arith in
      walk_arrays-row slots (lf i) (get_or bwt i 0 ∷ output) (omega arith) (lf_bounded i lt)
      ∙ ap (λ k. drop k (row (lf i)) ++ (get_or bwt i 0 ∷ output)) e
      ∙ tail_step i (n - suc slots) output lt (omega arith)

  -- Where a place fits 24 bits, the packed table is read as the two arrays.
  pub packed_at :
      n ≤ 2 ^ 24
      → (i : ℕ) → i < n
      → (get_or (pack (lf_table bwt) bwt) i 0 / 256 ≡ lf i)
        × (get_or (pack (lf_table bwt) bwt) i 0 % 256 ≡ get_or bwt i 0)
  packed_at small i lt =
      let e = pack_entry (lf_table bwt) bwt i (length-lf_table bwt) (omega (arith, same)) in
      let parts =
        unpack (lf i) (get_or bwt i 0) (omega (arith, lf_bounded i lt)) (byte_at bwt i h.bytes) in
      (ap (λ p. p / 256) e ∙ parts.0, ap (λ p. p % 256) e ∙ parts.1)

  pub walk_packed-walk_arrays :
      n ≤ 2 ^ 24
      → (slots i : ℕ) (output : List ℕ) → i < n
      → walk_packed (pack (lf_table bwt) bwt) slots i output
        ≡ walk_arrays bwt (lf_table bwt) slots i output
  unfolding walk_packed walk_arrays
  walk_packed-walk_arrays small zero i output lt = refl
  walk_packed-walk_arrays small (suc slots) i output lt =
      let (place, byte) = packed_at small i lt in
      rw (place, byte)
        (walk_packed-walk_arrays small slots (lf i) (get_or bwt i 0 ∷ output) (lf_bounded i lt))
