-- ===== src/Coding/Bwt/Table.antt =====
-- The table of the inverse transform: the place of a byte among all bytes of the block.
use aether_arch.Base.{
  ℕ, zero, suc, ==_refl, ==_iff, Bool-cases, inl, inr, ◌-◌, ◌+◌, ◌≤◌, ◌<◌, ◌≡◌, refl, sym, ap, ◌∙◌,
  List, [], ◌∷◌, length, length-set, get_or, get_or-set_add, take, ltb, ◌==◌, arith, IsBytes,
  replicate,
}
use native.Mathlib.Decide.{dec_lt}
use aether_arch.Entropy.Order0.Sums.{prefix, prefix-suc}
use aether_arch.Coding.Bwt.{bump, count_bytes, cumulate, last_first, zeros, lf_table}
use aether_arch.Coding.Bwt.Reads.{byte_at}
use aether_arch.Coding.Bwt.Counting.{bit, count}

count_bytes_entry :
    (counts bwt : List ℕ) (c : ℕ)
    → length counts ≡ 256
    → IsBytes bwt
    → get_or (count_bytes counts bwt) c 0 ≡ get_or counts c 0 + count (λ b. b == c) bwt
unfolding count_bytes
count_bytes_entry counts [] c full h = omega arith
count_bytes_entry counts (b ∷ bwt) c full (small, h) =
    let next = count_bytes_entry (bump counts b) bwt c (length-set counts b _ ∙ full) h in
    omega (arith, next, get_or-set_add counts b 1 c (omega (arith, full, small)))

length-count_bytes : (counts bwt : List ℕ) → length (count_bytes counts bwt) ≡ length counts
unfolding count_bytes
length-count_bytes counts [] = refl
length-count_bytes counts (b ∷ bwt) = length-count_bytes (bump counts b) bwt ∙ length-set counts b _

cumulate_entry :
    (sum : ℕ) (counts : List ℕ) (c : ℕ)
    → c < length counts
    → get_or (cumulate sum counts) c 0 ≡ sum + prefix counts c
unfolding cumulate prefix
cumulate_entry sum [] c h = absurd (omega arith)
cumulate_entry sum (x ∷ counts) zero h = omega arith
cumulate_entry sum (x ∷ counts) (suc c) h =
    omega (arith, cumulate_entry (sum + x) counts c (omega arith))

count_below :
    (bwt : List ℕ) (c : ℕ)
    → count (λ b. ltb b (suc c)) bwt ≡ count (λ b. ltb b c) bwt + count (λ b. b == c) bwt
count_below [] c = omega arith
count_below (b ∷ bwt) c = ground (arith, count_below bwt c)

count_zero : (bwt : List ℕ) → count (λ b. ltb b 0) bwt ≡ 0
count_zero [] = refl
count_zero (b ∷ bwt) = ground (arith, count_zero bwt)

prefix_counts :
    (counts bwt : List ℕ) (c : ℕ)
    → ((i : ℕ) → get_or counts i 0 ≡ count (λ b. b == i) bwt)
    → prefix counts c ≡ count (λ b. ltb b c) bwt
prefix_counts counts bwt zero h = unfold prefix in sym (count_zero bwt)
prefix_counts counts bwt (suc c) h =
    omega (arith, prefix-suc counts c, prefix_counts counts bwt c h, h c, count_below bwt c)

last_first_entry :
    (cumul occ bwt : List ℕ) (j : ℕ)
    → length occ ≡ 256
    → IsBytes bwt
    → j < length bwt
    → get_or (last_first cumul occ bwt) j 0
      ≡ get_or cumul (get_or bwt j 0) 0
        + (get_or occ (get_or bwt j 0) 0 + count (λ b. b == get_or bwt j 0) (take j bwt))
unfolding last_first
last_first_entry cumul occ [] j full h lt = absurd (omega arith)
last_first_entry cumul occ (b ∷ bwt) zero full h lt = omega arith
last_first_entry cumul occ (b ∷ bwt) (suc j) full (small, h) lt =
    let next =
      last_first_entry cumul (bump occ b) bwt j (length-set occ b _ ∙ full) h (omega arith) in
    omega (arith, next, get_or-set_add occ b 1 (get_or bwt j 0) (omega (arith, full, small)))

get_or-zeros : (n i : ℕ) → get_or {A = ℕ} (replicate n 0) i 0 ≡ 0
get_or-zeros zero i = refl
get_or-zeros (suc n) zero = refl
get_or-zeros (suc n) (suc i) = get_or-zeros n i

-- The entry of a place: the bytes of the block that are smaller than its byte, and the same bytes
-- before it.
pub lf_table_entry :
    (bwt : List ℕ) (j : ℕ)
    → IsBytes bwt
    → j < length bwt
    → get_or (lf_table bwt) j 0
      ≡ count (λ b. ltb b (get_or bwt j 0)) bwt + count (λ b. b == get_or bwt j 0) (take j bwt)
unfolding lf_table
lf_table_entry bwt j h lt =
    let c = get_or bwt j 0 in
    let counts = count_bytes zeros bwt in
    let counted : (i : ℕ) → get_or counts i 0 ≡ count (λ b. b == i) bwt =
      λ i. omega (arith, count_bytes_entry zeros bwt i refl h, get_or-zeros 256 i) in
    omega (
      arith,
      last_first_entry (cumulate 0 counts) zeros bwt j refl h lt,
      cumulate_entry 0 counts c (omega (arith, length-count_bytes zeros bwt, byte_at bwt j h)),
      prefix_counts counts bwt c counted,
      get_or-zeros 256 c,
    )

length-last_first : (cumul occ bwt : List ℕ) → length (last_first cumul occ bwt) ≡ length bwt
unfolding last_first
length-last_first cumul occ [] = refl
length-last_first cumul occ (b ∷ bwt) = ap suc (length-last_first cumul (bump occ b) bwt)

pub length-lf_table : (bwt : List ℕ) → length (lf_table bwt) ≡ length bwt
unfolding lf_table
length-lf_table bwt = length-last_first (cumulate 0 (count_bytes zeros bwt)) zeros bwt

places_before :
    (bwt : List ℕ) (j : ℕ)
    → j < length bwt
    → count (λ b. b == get_or bwt j 0) (take j bwt) < count (λ b. b == get_or bwt j 0) bwt
places_before [] j lt = absurd (omega arith)
places_before (b ∷ bwt) zero lt = ground (arith, ==_refl b)
places_before (b ∷ bwt) (suc j) lt = omega (arith, places_before bwt j (omega arith))

count_le : (bwt : List ℕ) (c : ℕ) → count (λ b. ltb b c) bwt + count (λ b. b == c) bwt ≤ length bwt
count_le [] c = omega arith
count_le (b ∷ bwt) c = ground (arith, count_le bwt c)

pub lf_table_bounded :
    (bwt : List ℕ) (j : ℕ) → IsBytes bwt → j < length bwt → get_or (lf_table bwt) j 0 < length bwt
lf_table_bounded bwt j h lt =
    omega (arith, lf_table_entry bwt j h lt, places_before bwt j lt, count_le bwt (get_or bwt j 0))

-- The place of the byte that stands behind `t` equal ones.
select :
    (bwt : List ℕ) (c t : ℕ)
    → t < count (λ b. b == c) bwt
    → (i : ℕ) × (i < length bwt) × (get_or bwt i 0 ≡ c) × (count (λ b. b == c) (take i bwt) ≡ t)
select [] c t h = absurd (omega arith)
select (b ∷ bwt) c t h = elim (Bool-cases (b == c)) [
  | inr other ↦
      let not_here : bit (b == c) ≡ 0 = rw other in
      let (i, lt, e, before) = select bwt c t (omega (arith, not_here)) in
      (suc i, omega arith, e, omega (arith, before, not_here))
  | inl same ↦
      let here : bit (b == c) ≡ 1 = rw same in
      elim (dec_lt 0 t) [
        | no first ↦ (0, omega arith, (==_iff b c).0 same, omega arith)
        | yes later ↦
            let (i, lt, e, before) = select bwt c (t - 1) (omega (arith, here)) in
            (suc i, omega arith, e, omega (arith, before, here))
      ]
]

-- Where the counts of the smaller bytes pass `k`.
find_byte :
    (bwt : List ℕ) (m k : ℕ)
    → k < count (λ b. ltb b m) bwt
    → (c : ℕ) × (count (λ b. ltb b c) bwt ≤ k)
      × (k < count (λ b. ltb b c) bwt + count (λ b. b == c) bwt)
find_byte bwt zero k h = absurd (omega (arith, count_zero bwt))
find_byte bwt (suc m) k h = elim (dec_lt k (count (λ b. ltb b m) bwt)) [
  | yes below ↦ find_byte bwt m k below
  | no above ↦ (m, omega arith, omega (arith, count_below bwt m))
]

count_bytes_all : (bwt : List ℕ) → IsBytes bwt → count (λ b. ltb b 256) bwt ≡ length bwt
count_bytes_all [] h = refl
count_bytes_all (b ∷ bwt) (small, h) = ground (arith, count_bytes_all bwt h, small)

-- Each place is an entry.
pub lf_table_onto :
    (bwt : List ℕ) (k : ℕ)
    → IsBytes bwt
    → k < length bwt
    → (i : ℕ) × (i < length bwt) × (get_or (lf_table bwt) i 0 ≡ k)
lf_table_onto bwt k h lt =
    let (c, low, high) = find_byte bwt 256 k (omega (arith, count_bytes_all bwt h)) in
    let (i, in_range, e, before) = select bwt c (k - count (λ b. ltb b c) bwt) (omega arith) in
    let entry = rw e at (lf_table_entry bwt i h in_range) in
    (i, in_range, omega (arith, entry, before))
