-- ===== src/Entropy/Order0/Sums.antt =====
-- Sums of the first counts.
use aether_arch.Base.{
  ℕ, zero, suc, ◌+◌, ◌*◌, ◌≤◌, ◌<◌, ◌≡◌, refl, ap, List, [], ◌∷◌, length, get_or, ltb,
  if◌then◌else◌, arith, map,
}
use aether_arch.Entropy.Order0.{add_at, sum, halve}

-- The sum of the first `n` counts: what a prefix query stands for.
unfoldable pub prefix : List ℕ → ℕ → ℕ
prefix xs zero = 0
prefix [] (suc n) = 0
prefix (x ∷ xs) (suc n) = x + prefix xs n

pub prefix-suc : (xs : List ℕ) (n : ℕ) → prefix xs (suc n) ≡ prefix xs n + get_or xs n 0
unfolding prefix
prefix-suc [] zero = refl
prefix-suc [] (suc n) = refl
prefix-suc (x ∷ xs) zero = omega arith
prefix-suc (x ∷ xs) (suc n) = omega (arith, prefix-suc xs n)

pub prefix_all : (xs : List ℕ) → prefix xs (length xs) ≡ sum xs
unfolding prefix
prefix_all [] = refl
prefix_all (x ∷ xs) = ap (λ t. x + t) (prefix_all xs)

pub prefix_le : (xs : List ℕ) (n d : ℕ) → prefix xs n ≤ prefix xs (n + d)
prefix_le xs n zero = let e : n + 0 ≡ n = omega arith in rw e (omega arith)
prefix_le xs n (suc d) =
    let e : n + suc d ≡ suc (n + d) = omega arith in
    rw e (omega (arith, prefix_le xs n d, prefix-suc xs (n + d)))

pub prefix-add_at :
    (xs : List ℕ) (i d n : ℕ)
    → i < length xs
    → prefix (add_at xs i d) n ≡ prefix xs n + (if ltb i n then d else 0)
unfolding prefix
prefix-add_at [] i d n h = absurd (omega arith)
prefix-add_at (x ∷ xs) i d zero h = ground arith
prefix-add_at (x ∷ xs) zero d (suc n) h = ground arith
prefix-add_at (x ∷ xs) (suc i) d (suc n) h = ground (arith, prefix-add_at xs i d n (omega arith))

pub halve_positive : (c : ℕ) → 0 < halve c
halve_positive c = unfold halve in ground arith

-- Rescaling about halves the total.
pub sum-halve : (xs : List ℕ) → 2 * sum (map halve xs) ≤ sum xs + 2 * length xs
sum-halve [] = omega arith
sum-halve (x ∷ xs) =
    let e : 2 * halve x ≤ x + 2 = unfold halve in ground arith in omega (arith, e, sum-halve xs)
