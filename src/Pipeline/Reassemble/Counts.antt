-- ===== src/Pipeline/Reassemble/Counts.antt =====
-- The counts of references are what the files still to come refer to.
use aether_arch.Base.{
  ℕ, zero, suc, ◌+◌, ◌-◌, ◌^◌, ◌≤◌, ◌<◌, ◌≡◌, ◌≢◌, refl, sym, ap, ◌∙◌, false, ◌&&◌, List, [], ◌∷◌,
  length, replicate, length-replicate, length-set, get_elem?, get_elem?-set_self, get_elem?-set_ne,
  set, min, ltb, leb, ◌==◌, ==_iff, if◌then◌else◌, none, some, Option-cases, arith, Bool-cases, inl,
  inr,
}
use aether_arch.Archive.Files.{FileEntry}
use aether_arch.Pipeline.Reassemble.{
  add_reference, add_references, count_entry, count_entries, block_ref_counts,
}

abbrev pub count_at : List ℕ → ℕ → ℕ
count_at counts i = elim (get_elem? counts i) [ none ↦ 0 | some c ↦ c ]

-- Whether a place is one of the `count` places from `i` on.
abbrev pub inside : ℕ → ℕ → ℕ → ℕ
inside count i j = if leb i j && ltb j (i + count) then 1 else 0

-- The files that refer to a block.
abbrev pub references : List FileEntry → ℕ → ℕ → ℕ
references [] n j = 0
references (e ∷ entries) n j =
    inside (min (min (e.chunk_start_idx + e.chunk_count) (2 ^ 64 - 1)) n - e.chunk_start_idx)
      e.chunk_start_idx j
    + references entries n j

pub get_elem?_in {ℓ} :
    {A : Type ℓ} (xs : List A) (i : ℕ) → i < length xs → (x : A) × (get_elem? xs i ≡ some x)
get_elem?_in [] i h = absurd (omega arith)
get_elem?_in (x ∷ xs) zero h = (x, refl)
get_elem?_in (x ∷ xs) (suc i) h = get_elem?_in xs i (omega arith)

length-add_reference : (counts : List ℕ) (i : ℕ) → length (add_reference counts i) ≡ length counts
length-add_reference counts i = elim (Option-cases (get_elem? counts i)) [
  | inl e ↦ rw (add_reference, e) refl
  | inr (c, e) ↦ rw (add_reference, e) (length-set counts i (min (c + 1) (2 ^ 32 - 1)))
]

count_at-add_reference :
    (counts : List ℕ) (i j : ℕ)
    → i < length counts
    → count_at counts i + 1 < 2 ^ 32
    → count_at (add_reference counts i) j ≡ count_at counts j + (if i == j then 1 else 0)
count_at-add_reference counts i j lt small =
    let (c, e) = get_elem?_in counts i lt in
    let at_i : count_at counts i ≡ c = rw (count_at, e) refl in
    let fits : min (c + 1) (2 ^ 32 - 1) ≡ c + 1 = omega (arith, at_i, small) in
    elim (Bool-cases (i == j)) [
      | inl same ↦
          let here : i ≡ j = (==_iff i j).0 same in
          let at_j : count_at counts j ≡ c = ap (count_at counts) (sym here) ∙ at_i in
          let found : get_elem? (set counts i (c + 1)) j ≡ some (c + 1) =
            ap (get_elem? (set counts i (c + 1))) (sym here)
            ∙ get_elem?-set_self counts i (c + 1) lt in
          rw (same, add_reference, e, fits)
            (ap (λ o. elim o as (λ _. ℕ) [ none ↦ 0 | some x ↦ x ]) found
              ∙ ap (λ k. k + 1) (sym at_j))
      | inr apart ↦
          let away : i ≢ j = ground (arith, apart) in
          rw (apart, add_reference, e)
            (ap (λ o. elim o as (λ _. ℕ) [ none ↦ 0 | some x ↦ x ])
                (get_elem?-set_ne counts (min (c + 1) (2 ^ 32 - 1)) away)
              ∙ omega arith)
    ]

length-add_references :
    (count i : ℕ) (counts : List ℕ) → length (add_references count i counts) ≡ length counts
unfolding add_references
length-add_references zero i counts = refl
length-add_references (suc count) i counts =
    length-add_references count (i + 1) (add_reference counts i) ∙ length-add_reference counts i

pub inside_none : (i j : ℕ) → inside 0 i j ≡ 0
inside_none i j = ground arith

pub inside_suc :
    (i count j : ℕ) → (if i == j then 1 else 0) + inside count (i + 1) j ≡ inside (suc count) i j
inside_suc i count j = ground arith

count_at-add_references :
    (count i bound : ℕ) (counts : List ℕ) (j : ℕ)
    → (0 < count → i + count ≤ length counts)
    → ((k : ℕ) → i ≤ k → count_at counts k ≤ bound)
    → bound + 1 < 2 ^ 32
    → count_at (add_references count i counts) j ≡ count_at counts j + inside count i j
unfolding add_references
count_at-add_references zero i bound counts j fits small room = omega (arith, inside_none i j)
count_at-add_references (suc count) i bound counts j fits small room =
    let one : count_at counts i + 1 < 2 ^ 32 = omega (arith, small i (omega arith), room) in
    let here : (k : ℕ)
        → count_at (add_reference counts i) k ≡ count_at counts k + (if i == k then 1 else 0) =
      λ k. count_at-add_reference counts i k (omega (arith, fits (omega arith))) one in
    let later : (k : ℕ) → i + 1 ≤ k → count_at (add_reference counts i) k ≤ bound = λ k le.
      let apart : (i == k) ≡ false = ground (arith, le) in
      let e : (if◌then◌else◌ {A = ℕ} (i == k) 1 0) ≡ 0 = rw apart refl in
      omega (arith, here k, e, small k (omega arith)) in
    omega (
      arith,
      here j,
      count_at-add_references count (i + 1) bound (add_reference counts i) j
          (λ some_left. omega (arith, fits (omega arith), length-add_reference counts i)) later
          room,
      inside_suc i count j,
    )

inside_one : (count i j : ℕ) → inside count i j ≤ 1
inside_one count i j = ground arith

length-count_entry :
    (e : FileEntry) (n : ℕ) (counts : List ℕ) → length (count_entry e n counts) ≡ length counts
unfolding count_entry
length-count_entry e n counts =
    length-add_references
      (min (min (e.chunk_start_idx + e.chunk_count) (2 ^ 64 - 1)) n - e.chunk_start_idx)
      e.chunk_start_idx counts

count_at-count_entries :
    (entries : List FileEntry) (n bound : ℕ) (counts : List ℕ) (j : ℕ)
    → length counts ≡ n
    → ((k : ℕ) → count_at counts k ≤ bound)
    → bound + length entries + 1 < 2 ^ 32
    → count_at (count_entries entries n counts) j ≡ count_at counts j + references entries n j
unfolding count_entries
count_at-count_entries [] n bound counts j size small room = omega arith
count_at-count_entries (e ∷ entries) n bound counts j size small room =
    let start = e.chunk_start_idx in
    let count = min (min (start + e.chunk_count) (2 ^ 64 - 1)) n - start in
    let here : (k : ℕ)
        → count_at (count_entry e n counts) k ≡ count_at counts k + inside count start k =
      λ k.
        unfold count_entry in
        count_at-add_references count start bound counts k
          (λ some_left. omega (arith, size, some_left)) (λ i le. small i) (omega (arith, room)) in
    omega (
      arith,
      here j,
      count_at-count_entries entries n (bound + 1) (count_entry e n counts) j
          (length-count_entry e n counts ∙ size)
          (λ k. omega (arith, here k, small k, inside_one count start k)) (omega (arith, room)),
    )

count_at-zeros : (n j : ℕ) → count_at (replicate n 0) j ≡ 0
count_at-zeros zero j = refl
count_at-zeros (suc n) zero = refl
count_at-zeros (suc n) (suc j) = count_at-zeros n j

-- For fewer than 2^32 - 1 files: `block_ref_counts` counts, for each block, the files whose range has
-- it.
pub count_at-block_ref_counts :
    (entries : List FileEntry) (n j : ℕ)
    → length entries + 1 < 2 ^ 32
    → count_at (block_ref_counts entries n) j ≡ references entries n j
unfolding block_ref_counts
count_at-block_ref_counts entries n j room = omega (
  arith,
  count_at-count_entries entries n 0 (replicate n 0) j (length-replicate n 0)
      (λ k. omega (arith, count_at-zeros n k)) (omega (arith, room)),
  count_at-zeros n j,
)

length-count_entries :
    (entries : List FileEntry) (n : ℕ) (counts : List ℕ)
    → length (count_entries entries n counts) ≡ length counts
unfolding count_entries
length-count_entries [] n counts = refl
length-count_entries (e ∷ entries) n counts =
    length-count_entries entries n (count_entry e n counts) ∙ length-count_entry e n counts

pub length-block_ref_counts :
    (entries : List FileEntry) (n : ℕ) → length (block_ref_counts entries n) ≡ n
unfolding block_ref_counts
length-block_ref_counts entries n =
    length-count_entries entries n (replicate n 0) ∙ length-replicate n 0
