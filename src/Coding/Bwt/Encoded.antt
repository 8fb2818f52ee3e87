-- ===== src/Coding/Bwt/Encoded.antt =====
-- What `bwt_encode` makes of a text, with its suffix array: the last bytes of the sorted rotations, and
-- the place of the text itself among them.
use aether_arch.Base.{
  ℕ, zero, suc, ◌+◌, ◌-◌, ◌%◌, ◌≤◌, ◌<◌, ◌≡◌, refl, sym, ap, ◌∙◌, Bool, true, List, [], ◌∷◌, ◌++◌,
  length, length-append, length-drop, length-take_le, length-map, map, get_or, take, drop, list_ext,
  ltb, ◌==◌, if◌then◌else◌, arith, All, IsBytes, Bool-cases, inl, inr, ==_iff,
}
use native.Mathlib.Nat.{mod-eq_of_lt, add-mod_right, mod-lt}
use aether_arch.Coding.Bwt.{scan}
use aether_arch.Coding.Bwt.Counting.{bit, count, count-map}
use aether_arch.Coding.Bwt.Order.{le, le-take, IsSorted}
use aether_arch.Coding.Bwt.Rows.{last, rotate, AreRows}
use aether_arch.Coding.Bwt.Reads.{byte_at, get_or-take, get_or-drop, get_or-left, get_or-right}
use aether_arch.Coding.Bwt.Rotations.{
  IsSuffixArray, kept, kept_bounded, count-kept, tally, tally_same, count-tally, tally_cycle,
}

-- The number of kept places.
count_all : (xs : List ℕ) → count (λ x. true) xs ≡ length xs
count_all [] = refl
count_all (x ∷ xs) = omega (arith, count_all xs)

tally_ones : (n : ℕ) → tally n (λ i. 1) ≡ n
tally_ones zero = refl
tally_ones (suc n) = omega (arith, tally_ones n)

-- The scan without its early end.
abbrev pub find : List ℕ → ℕ → ℕ → ℕ
find [] rank primary = primary
find (pos ∷ ps) rank primary = find ps (rank + 1) (if pos == 0 then rank else primary)

All_kept :
    (n s : ℕ) (t : List ℕ) (sa : List ℕ)
    → All (λ r. le (drop s t) r ≡ true) (map (λ i. drop i t) sa)
    → All (λ r. le (take n (drop s t)) r ≡ true) (map (λ i. take n (drop i t)) (kept n sa))
All_kept n s t [] h = tt
All_kept n s t (i ∷ sa) (first, h) = elim (Bool-cases (ltb i n)) [
  | inl small ↦ rw small (le-take n (drop s t) (drop i t) first, All_kept n s t sa h)
  | inr large ↦ rw large (All_kept n s t sa h)
]

kept-IsSorted :
    (n : ℕ) (t sa : List ℕ)
    → IsSorted (map (λ i. drop i t) sa)
    → IsSorted (map (λ i. take n (drop i t)) (kept n sa))
kept-IsSorted n t [] h = tt
kept-IsSorted n t (s ∷ sa) (later, h) = elim (Bool-cases (ltb s n)) [
  | inl small ↦ rw small (All_kept n s t sa later, kept-IsSorted n t sa h)
  | inr large ↦ rw large (kept-IsSorted n t sa h)
]

module _ (text sa : List ℕ) (h : IsSuffixArray (text ++ text) sa) where
  abbrev pub n : ℕ
  n = length text

  abbrev pub places : List ℕ
  places = kept n sa

  -- The text from place `p` on, around its end.
  abbrev pub around : ℕ → List ℕ
  around p = take n (drop p (text ++ text))

  abbrev prev : ℕ → ℕ
  prev p = (p + n - 1) % n

  abbrev pub rows : List (List ℕ)
  rows = map around places

  doubled : length (text ++ text) ≡ n + n
  doubled = length-append text text

  length-around : (p : ℕ) → p ≤ n → length (around p) ≡ n
  length-around p le' =
      length-take_le n (drop p (text ++ text))
        (omega (arith, length-drop p (text ++ text), doubled))

  around_at : (p i : ℕ) → i < n → get_or (around p) i 0 ≡ get_or (text ++ text) (p + i) 0
  around_at p i lt = get_or-take n (drop p (text ++ text)) i lt ∙ get_or-drop p (text ++ text) i

  pub once : (i : ℕ) → i < n → count (λ s. s == i) places ≡ 1
  once i lt = count-kept n i sa lt ∙ h.once i (omega (arith, doubled))

  sum_places : (f : ℕ → Bool) → count f places ≡ tally n (λ i. bit (f i))
  sum_places f =
      count-tally f n places (kept_bounded n sa)
      ∙ tally_same n (λ i. if f i then count (λ x. x == i) places else 0) (λ i. bit (f i))
          (λ i lt. ground (arith, once i lt))

  pub length-places : length places ≡ n
  length-places = sym (count_all places) ∙ sum_places (λ x. true) ∙ tally_ones n

  prev_zero : 0 < n → prev 0 ≡ n - 1
  prev_zero some =
      let e : 0 + n - 1 ≡ n - 1 = omega arith in ap (λ k. k % n) e ∙ mod-eq_of_lt (omega arith)

  prev_suc : (i : ℕ) → suc i < n → prev (suc i) ≡ i
  prev_suc i lt =
      let e : suc i + n - 1 ≡ i + n = omega arith in
      ap (λ k. k % n) e ∙ add-mod_right i n ∙ mod-eq_of_lt (omega arith)

  low : (i k : ℕ) → k ≡ i → i < n → get_or (text ++ text) k 0 ≡ get_or text i 0
  low i k e lt = ap (λ j. get_or (text ++ text) j 0) e ∙ get_or-left text text i lt

  high : (i k : ℕ) → k ≡ n + i → get_or (text ++ text) k 0 ≡ get_or text i 0
  high i k e = ap (λ j. get_or (text ++ text) j 0) e ∙ get_or-right text text i

  same_place : (i k : ℕ) → i ≡ k → get_or (text ++ text) i 0 ≡ get_or (text ++ text) k 0
  same_place i k e = ap (λ j. get_or (text ++ text) j 0) e

  last-around : (p : ℕ) → p < n → last n (around p) ≡ get_or text (prev p) 0
  last-around zero lt =
      around_at 0 (n - 1) (omega arith)
      ∙ low (n - 1) (0 + (n - 1)) (omega arith) (omega arith)
      ∙ ap (λ k. get_or text k 0) (sym (prev_zero lt))
  last-around (suc p) lt =
      around_at (suc p) (n - 1) (omega arith)
      ∙ high p (suc p + (n - 1)) (omega arith)
      ∙ ap (λ k. get_or text k 0) (sym (prev_suc p lt))

  rotated_at :
      (p i : ℕ) → p < n → i < n → get_or (rotate n (around p)) i 0 ≡ get_or (around (prev p)) i 0
  rotated_at p zero lt in_range =
      let below : prev p < n = mod-lt (p + n - 1) (omega arith) in
      last-around p lt
      ∙ sym (around_at (prev p) 0 in_range ∙ low (prev p) (prev p + 0) (omega arith) below)
  rotated_at zero (suc i) lt in_range =
      get_or-take (n - 1) (around 0) i (omega arith)
      ∙ around_at 0 i (omega arith)
      ∙ low i (0 + i) (omega arith) (omega arith)
      ∙ sym (
          around_at (prev 0) (suc i) in_range
          ∙ high i (prev 0 + suc i) (omega (arith, prev_zero lt)))
  rotated_at (suc p) (suc i) lt in_range =
      get_or-take (n - 1) (around (suc p)) i (omega arith)
      ∙ around_at (suc p) i (omega arith)
      ∙ same_place (suc p + i) (prev (suc p) + suc i) (omega (arith, prev_suc p lt))
      ∙ sym (around_at (prev (suc p)) (suc i) in_range)

  length-rotate : (p : ℕ) → p < n → length (rotate n (around p)) ≡ n
  length-rotate p lt =
      omega
        (arith, length-take_le (n - 1) (around p) (omega (arith, length-around p (omega arith))))

  rotate-around : (p : ℕ) → p < n → rotate n (around p) ≡ around (prev p)
  rotate-around p lt =
      let below : prev p < n = mod-lt (p + n - 1) (omega arith) in
      let size = length-rotate p lt in
      list_ext (rotate n (around p)) (around (prev p))
        (omega (arith, size, length-around (prev p) (omega arith)))
        (λ i in_range. rotated_at p i lt (omega (arith, size)))

  closed : (f : List ℕ → Bool) → count f (map (rotate n) rows) ≡ count f rows
  closed f =
      let before : (i : ℕ) → ℕ = λ i. bit (f (around i)) in
      let after : (i : ℕ) → ℕ = λ i. bit (f (rotate n (around i))) in
      count-map f (rotate n) rows
      ∙ count-map (λ r. f (rotate n r)) around places
      ∙ sum_places (λ i. f (rotate n (around i)))
      ∙ tally_cycle n before after
          (λ some. ap (λ r. bit (f r)) (rotate-around 0 some) ∙ ap before (prev_zero some))
          (λ i lt. ap (λ r. bit (f r)) (rotate-around (suc i) lt) ∙ ap before (prev_suc i lt))
      ∙ sym (sum_places (λ i. f (around i)))
      ∙ sym (count-map f around places)

  rows-IsSorted : IsSorted rows
  rows-IsSorted = kept-IsSorted n (text ++ text) sa h.ascends

  lasts_of :
      (ps : List ℕ)
      → All (λ p. p < n) ps
      → map (last n) (map around ps) ≡ map (λ p. get_or text (prev p) 0) ps
  lasts_of [] all = refl
  lasts_of (p ∷ ps) (first, all) = cc (last-around p first, lasts_of ps all)

  widths : (ps : List ℕ) → All (λ p. p < n) ps → All (λ r. length r ≡ n) (map around ps)
  widths [] all = tt
  widths (p ∷ ps) (first, all) = (length-around p (omega arith), widths ps all)

  -- The last bytes of the rows, from above.
  abbrev pub bytes_before : List ℕ
  bytes_before = map (λ p. get_or text (prev p) 0) places

  before-IsBytes : (ps : List ℕ) → IsBytes text → IsBytes (map (λ p. get_or text (prev p) 0) ps)
  before-IsBytes [] bytes = tt
  before-IsBytes (p ∷ ps) bytes = (byte_at text (prev p) bytes, before-IsBytes ps bytes)

  pub rows-AreRows : IsBytes text → AreRows n rows bytes_before
  rows-AreRows bytes = record {
    number = length-map places around ∙ length-places;
    width = widths places (kept_bounded n sa);
    sorted = rows-IsSorted;
    lasts = lasts_of places (kept_bounded n sa);
    bytes = before-IsBytes places bytes;
    closed = closed;
  }

  pub scan-find :
      (ps' : List ℕ) (rank primary : ℕ)
      → rank + length (kept n ps') ≡ n
      → scan text ps' rank primary
        ≡ (map (λ p. get_or text (prev p) 0) (kept n ps'), find (kept n ps') rank primary)
  unfolding scan
  scan-find [] rank primary e = refl
  scan-find (p ∷ ps') rank primary e = elim (Bool-cases (ltb p n)) [
    | inr large ↦ rw large (scan-find ps' rank primary (rw large at e))
    | inl small ↦
        let e' : rank + suc (length (kept n ps')) ≡ n = rw small at e in
        elim (Bool-cases (rank + 1 == n)) [
          | inl full ↦
              let none_left : kept n ps' ≡ [] =
                length_none (kept n ps') (omega (arith, e', (==_iff (rank + 1) n).0 full)) in
              rw (small, full, none_left)
          | inr more ↦
              let rest =
                scan-find ps' (rank + 1) (if p == 0 then rank else primary) (omega (arith, e')) in
              rw (small, more, rest)
        ]
  ]
    where
      length_none : (xs : List ℕ) → length xs ≡ 0 → xs ≡ []
      length_none [] h = refl
      length_none (x ∷ xs) h = absurd (omega arith)
