-- ===== src/Coding/Bwt/Reads.antt =====
-- Reads of a part of a list, and of two lists together.
use aether_arch.Base.{
  ℕ, zero, suc, ◌+◌, ◌<◌, ◌≡◌, refl, ap, List, [], ◌∷◌, ◌++◌, length, get_or, take, drop, arith,
  IsBytes, map, ◌≤◌,
}

pub get_or-take : (n : ℕ) (xs : List ℕ) (i : ℕ) → i < n → get_or (take n xs) i 0 ≡ get_or xs i 0
get_or-take zero xs i h = absurd (omega arith)
get_or-take (suc n) [] i h = refl
get_or-take (suc n) (x ∷ xs) zero h = refl
get_or-take (suc n) (x ∷ xs) (suc i) h = get_or-take n xs i (omega arith)

pub get_or-drop : (n : ℕ) (xs : List ℕ) (i : ℕ) → get_or (drop n xs) i 0 ≡ get_or xs (n + i) 0
get_or-drop zero xs i = ap (λ k. get_or xs k 0) (omega arith)
get_or-drop (suc n) [] i = refl
get_or-drop (suc n) (x ∷ xs) i =
    let e : suc n + i ≡ suc (n + i) = omega arith in rw e (get_or-drop n xs i)

pub get_or-left : (xs ys : List ℕ) (i : ℕ) → i < length xs → get_or (xs ++ ys) i 0 ≡ get_or xs i 0
get_or-left [] ys i h = absurd (omega arith)
get_or-left (x ∷ xs) ys zero h = refl
get_or-left (x ∷ xs) ys (suc i) h = get_or-left xs ys i (omega arith)

pub get_or-right : (xs ys : List ℕ) (i : ℕ) → get_or (xs ++ ys) (length xs + i) 0 ≡ get_or ys i 0
get_or-right [] ys i = ap (λ k. get_or ys k 0) (omega arith)
get_or-right (x ∷ xs) ys i =
    let e : suc (length xs) + i ≡ suc (length xs + i) = omega arith in rw e (get_or-right xs ys i)

pub byte_at : (xs : List ℕ) (i : ℕ) → IsBytes xs → get_or xs i 0 < 256
byte_at [] i h = omega arith
byte_at (x ∷ xs) zero (first, h) = first
byte_at (x ∷ xs) (suc i) (first, h) = byte_at xs i h

pub drop-append_le : (n : ℕ) (xs ys : List ℕ) → n ≤ length xs → drop n (xs ++ ys) ≡ drop n xs ++ ys
drop-append_le zero xs ys h = refl
drop-append_le (suc n) [] ys h = absurd (omega arith)
drop-append_le (suc n) (x ∷ xs) ys h = drop-append_le n xs ys (omega arith)

pub take-append_le : (n : ℕ) (xs ys : List ℕ) → n ≤ length xs → take n (xs ++ ys) ≡ take n xs
take-append_le zero xs ys h = refl
take-append_le (suc n) [] ys h = absurd (omega arith)
take-append_le (suc n) (x ∷ xs) ys h = ap (λ t. x ∷ t) (take-append_le n xs ys (omega arith))

-- The last element behind those before it.
pub take_last : (n : ℕ) (xs : List ℕ) → length xs ≡ suc n → take n xs ++ (get_or xs n 0 ∷ []) ≡ xs
take_last n [] h = absurd (omega arith)
take_last zero (x ∷ []) h = refl
take_last zero (x ∷ y ∷ xs) h = absurd (omega arith)
take_last (suc n) (x ∷ xs) h = ap (λ t. x ∷ t) (take_last n xs (omega arith))

pub drop_at : (n : ℕ) (xs : List ℕ) → n < length xs → drop n xs ≡ get_or xs n 0 ∷ drop (suc n) xs
drop_at n [] h = absurd (omega arith)
drop_at zero (x ∷ xs) h = refl
drop_at (suc n) (x ∷ xs) h = drop_at n xs (omega arith)

pub get_or-map :
    (f : ℕ → List ℕ) (xs : List ℕ) (i : ℕ)
    → i < length xs
    → get_or (map f xs) i [] ≡ f (get_or xs i 0)
get_or-map f [] i h = absurd (omega arith)
get_or-map f (x ∷ xs) zero h = refl
get_or-map f (x ∷ xs) (suc i) h = get_or-map f xs i (omega arith)
