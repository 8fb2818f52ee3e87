-- ===== src/Coding/Bwt/Rotations.antt =====
-- The rotations of a text in the order of its suffix array are the rows that the inverse transform needs.
use aether_arch.Base.{
  ℕ, zero, suc, ◌+◌, ◌-◌, ◌≤◌, ◌<◌, ◌≡◌, refl, sym, ap, ◌∙◌, Bool, true, false, List, [], ◌∷◌,
  length, map, drop, ltb, ◌==◌, if◌then◌else◌, arith, All, Bool-cases, inl, inr, ==_iff,
}
use native.Mathlib.Decide.{dec_lt}
use aether_arch.Coding.Bwt.Counting.{bit, count}
use aether_arch.Coding.Bwt.Order.{le, IsSorted}

-- What `libsais` documents: the places of the text, each once, in the order of the suffixes there.
pub record IsSuffixArray (text sa : List ℕ) : Type 0 where
  pub bounded : All (λ s. s < length text) sa
  pub once : (i : ℕ) → i < length text → count (λ s. s == i) sa ≡ 1
  pub ascends : IsSorted (map (λ s. drop s text) sa)

-- The places in the first copy of the text.
abbrev pub kept : ℕ → List ℕ → List ℕ
kept n [] = []
kept n (s ∷ sa) = if ltb s n then s ∷ kept n sa else kept n sa

pub kept_bounded : (n : ℕ) (sa : List ℕ) → All (λ s. s < n) (kept n sa)
kept_bounded n [] = tt
kept_bounded n (s ∷ sa) = elim (Bool-cases (ltb s n)) [
  | inl small ↦ rw small (ground (arith, small), kept_bounded n sa)
  | inr large ↦ rw large (kept_bounded n sa)
]

pub count-kept :
    (n i : ℕ) (sa : List ℕ) → i < n → count (λ s. s == i) (kept n sa) ≡ count (λ s. s == i) sa
count-kept n i [] lt = refl
count-kept n i (s ∷ sa) lt = elim (Bool-cases (ltb s n)) [
  | inl small ↦ rw small (omega (arith, count-kept n i sa lt))
  | inr large ↦
      let other : bit (s == i) ≡ 0 = ground (arith, large, lt) in
      rw large (omega (arith, other, count-kept n i sa lt))
]

-- Sums over the places below `n`.
abbrev pub tally : ℕ → (ℕ → ℕ) → ℕ
tally zero g = 0
tally (suc k) g = g k + tally k g

tally_add :
    (n : ℕ) (g h k : ℕ → ℕ)
    → ((i : ℕ) → i < n → k i ≡ g i + h i)
    → tally n k ≡ tally n g + tally n h
tally_add zero g h k e = omega arith
tally_add (suc n) g h k e =
    omega (arith, e n (omega arith), tally_add n g h k (λ i lt. e i (omega arith)))

pub tally_same : (n : ℕ) (g h : ℕ → ℕ) → ((i : ℕ) → i < n → g i ≡ h i) → tally n g ≡ tally n h
tally_same zero g h e = refl
tally_same (suc n) g h e =
    omega (arith, e n (omega arith), tally_same n g h (λ i lt. e i (omega arith)))

tally_zero : (n : ℕ) (g : ℕ → ℕ) → ((i : ℕ) → i < n → g i ≡ 0) → tally n g ≡ 0
tally_zero zero g e = refl
tally_zero (suc n) g e =
    omega (arith, e n (omega arith), tally_zero n g (λ i lt. e i (omega arith)))

tally_one :
    (n x : ℕ) (f : ℕ → Bool) → x < n → tally n (λ i. if f i then bit (x == i) else 0) ≡ bit (f x)
tally_one zero x f h = absurd (omega arith)
tally_one (suc n) x f h = elim (dec_lt x n) [
  | yes below ↦
      let here : (x == n) ≡ false = ground arith in
      let none : (if f n then bit (x == n) else 0) ≡ 0 = rw here (ground arith) in
      omega (arith, none, tally_one n x f below)
  | no above ↦
      let e : n ≡ x = omega arith in
      let same : (x == n) ≡ true = (==_iff x n).1 (sym e) in
      let here : (if f n then bit (x == n) else 0) ≡ bit (f n) = rw same in
      omega (
        arith,
        here,
        ap (λ k. bit (f k)) e,
        tally_zero n (λ i. if f i then bit (x == i) else 0)
            (λ i lt.
              let apart : (x == i) ≡ false = ground (arith, lt, e) in rw apart (ground arith)),
      )
]

pub count-tally :
    (f : ℕ → Bool) (n : ℕ) (xs : List ℕ)
    → All (λ x. x < n) xs
    → count f xs ≡ tally n (λ i. if f i then count (λ x. x == i) xs else 0)
count-tally f n [] h = sym (tally_zero n (λ i. if f i then 0 else 0) (λ i lt. ground arith))
count-tally f n (x ∷ xs) (first, h) =
    let rest = count-tally f n xs h in
    omega (
      arith,
      rest,
      tally_one n x f first,
      tally_add n (λ i. if f i then bit (x == i) else 0)
          (λ i. if f i then count (λ y. y == i) xs else 0)
          (λ i. if f i then count (λ y. y == i) (x ∷ xs) else 0) (λ i lt. ground arith),
    )

-- The place before, around the text.
tally_around :
    (m : ℕ) (g h : ℕ → ℕ) (k : ℕ)
    → h 0 ≡ g m
    → ((i : ℕ) → i < m → h (suc i) ≡ g i)
    → k ≤ m
    → tally (suc k) h ≡ g m + tally k g
tally_around m g h zero first next le = omega (arith, first)
tally_around m g h (suc k) first next le =
    omega (arith, tally_around m g h k first next (omega arith), next k (omega arith))

pub tally_cycle :
    (n : ℕ) (g h : ℕ → ℕ)
    → (0 < n → h 0 ≡ g (n - 1))
    → ((i : ℕ) → suc i < n → h (suc i) ≡ g i)
    → tally n h ≡ tally n g
tally_cycle zero g h first next = refl
tally_cycle (suc m) g h first next =
    let e : suc m - 1 ≡ m = omega arith in
    tally_around m g h m (first (omega arith) ∙ ap g e) (λ i lt. next i (omega arith)) (omega arith)
