-- ===== src/Coding/Bwt/Order.antt =====
-- The order of texts, and sorted lists of them.
use aether_arch.Base.{
  ℕ, zero, suc, ◌+◌, ◌≤◌, ◌<◌, ◌≡◌, refl, sym, ◌∙◌, Bool, true, false, ◌&&◌, ◌||◌, not, List, [],
  ◌∷◌, get_or, take, ltb, ◌==◌, arith, All, Bool-cases, inl, inr,
}
use aether_arch.Coding.Bwt.Counting.{bit, count, count_none, All-map}

-- No text is before its beginning.
abbrev pub le : List ℕ → List ℕ → Bool
le [] ys = true
le (x ∷ xs) [] = false
le (x ∷ xs) (y ∷ ys) = ltb x y || (x == y && le xs ys)

pub le_refl : (xs : List ℕ) → le xs xs ≡ true
le_refl [] = refl
le_refl (x ∷ xs) = ground (arith, le_refl xs)

pub le_trans : (xs ys zs : List ℕ) → le xs ys ≡ true → le ys zs ≡ true → le xs zs ≡ true
le_trans [] ys zs h g = refl
le_trans (x ∷ xs) [] zs h g = absurd (cc h)
le_trans (x ∷ xs) (y ∷ ys) [] h g = absurd (cc g)
le_trans (x ∷ xs) (y ∷ ys) (z ∷ zs) h g =
    step x y z (le xs ys) (le ys zs) (le xs zs) h g (λ p q. le_trans xs ys zs p q)
  where
    step :
        (x y z : ℕ) (a b c : Bool)
        → (ltb x y || (x == y && a)) ≡ true
        → (ltb y z || (y == z && b)) ≡ true
        → (a ≡ true → b ≡ true → c ≡ true)
        → (ltb x z || (x == z && c)) ≡ true
    step x y z a b c h g t = ground arith

pub le_antisym : (xs ys : List ℕ) → le xs ys ≡ true → le ys xs ≡ true → xs ≡ ys
le_antisym [] [] h g = refl
le_antisym [] (y ∷ ys) h g = absurd (cc g)
le_antisym (x ∷ xs) [] h g = absurd (cc h)
le_antisym (x ∷ xs) (y ∷ ys) h g =
    let (same, a, b) = step x y (le xs ys) (le ys xs) h g in cc (same, le_antisym xs ys a b)
  where
    step :
        (x y : ℕ) (a b : Bool)
        → (ltb x y || (x == y && a)) ≡ true
        → (ltb y x || (y == x && b)) ≡ true
        → (x ≡ y) × (a ≡ true) × (b ≡ true)
    step x y a b h g = ground arith

pub le_total : (xs ys : List ℕ) → le xs ys ≡ false → le ys xs ≡ true
le_total [] ys h = absurd (cc h)
le_total (x ∷ xs) [] h = refl
le_total (x ∷ xs) (y ∷ ys) h = step x y (le xs ys) (le ys xs) h (le_total xs ys)
  where
    step :
        (x y : ℕ) (a b : Bool)
        → (ltb x y || (x == y && a)) ≡ false
        → (a ≡ false → b ≡ true)
        → (ltb y x || (y == x && b)) ≡ true
    step x y a b h t = ground arith

pub le-take : (n : ℕ) (xs ys : List ℕ) → le xs ys ≡ true → le (take n xs) (take n ys) ≡ true
le-take zero xs ys h = refl
le-take (suc n) [] ys h = refl
le-take (suc n) (x ∷ xs) [] h = absurd (cc h)
le-take (suc n) (x ∷ xs) (y ∷ ys) h =
    step x y (le xs ys) (le (take n xs) (take n ys)) h (le-take n xs ys)
  where
    step :
        (x y : ℕ) (a b : Bool)
        → (ltb x y || (x == y && a)) ≡ true
        → (a ≡ true → b ≡ true)
        → (ltb x y || (x == y && b)) ≡ true
    step x y a b h t = ground arith

true≢false : true ≡ false → ⊥
true≢false e = absurd (cc e)

-- Each text is at or before every later one.
abbrev pub IsSorted : List (List ℕ) → Type 0
IsSorted [] = Unit
IsSorted (r ∷ rows) = All (λ s. le r s ≡ true) rows × IsSorted rows

-- A sorted list has a text in the places that its smaller texts, and those up to it, leave.
pub row_at :
    (y : List ℕ) (rows : List (List ℕ)) (k : ℕ)
    → IsSorted rows
    → count (λ s. not (le y s)) rows ≤ k
    → k < count (λ s. le s y) rows
    → get_or rows k [] ≡ y
row_at y [] k sorted low high = absurd (omega arith)
row_at y (r ∷ rows) k (later, sorted) low high =
    let rest = row_at y rows in
    elim (Bool-cases (le y r)) [
      | inr below ↦
          let below' = le_total y r below in
          after_less k (λ i. rest i sorted) (rw below at low) (rw below' at high)
      | inl above ↦ elim (Bool-cases (le r y)) [
        | inl same ↦ at_same k (λ i. rest i sorted) (le_antisym r y same above) (rw same at high)
        | inr larger ↦ absurd (omega (arith, rw larger at high, none_later larger))
      ]
    ]
  where
    Rest : Type 0
    Rest =
        (i : ℕ)
        → count (λ s. not (le y s)) rows ≤ i
        → i < count (λ s. le s y) rows
        → get_or rows i [] ≡ y

    after_less :
        (k : ℕ)
        → Rest
        → bit true + count (λ s. not (le y s)) rows ≤ k
        → k < bit true + count (λ s. le s y) rows
        → get_or (r ∷ rows) k [] ≡ y
    after_less zero rest low high = absurd (omega arith)
    after_less (suc k) rest low high = rest k (omega arith) (omega arith)

    not_before : r ≡ y → count (λ s. not (le y s)) rows ≡ 0
    not_before e =
        count_none (λ s. not (le y s)) rows
          (All-map (λ s h. let h' = rw e at h in rw h') rows later)

    none_later : le r y ≡ false → count (λ s. le s y) rows ≡ 0
    none_later larger =
        count_none (λ s. le s y) rows
          (All-map
            (λ s h. elim (Bool-cases (le s y)) [
              | inl under ↦ absurd (true≢false (sym (le_trans r s y h under) ∙ larger))
              | inr over ↦ over
            ])
            rows later)

    at_same :
        (k : ℕ)
        → Rest
        → r ≡ y
        → k < bit true + count (λ s. le s y) rows
        → get_or (r ∷ rows) k [] ≡ y
    at_same zero rest e high = e
    at_same (suc k) rest e high = rest k (omega (arith, not_before e)) (omega arith)
