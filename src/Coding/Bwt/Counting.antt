-- ===== src/Coding/Bwt/Counting.antt =====
-- How many elements of a list pass a test.
use aether_arch.Base.{
  ℕ, ◌+◌, ◌≡◌, refl, Bool, false, List, [], ◌∷◌, ◌++◌, map, if◌then◌else◌, arith, All,
}

abbrev pub bit : Bool → ℕ
bit b = if b then 1 else 0

abbrev pub count {ℓ} : {A : Type ℓ} → (A → Bool) → List A → ℕ
count f [] = 0
count f (x ∷ xs) = bit (f x) + count f xs

pub count-append {ℓ} :
    {A : Type ℓ} (f : A → Bool) (xs ys : List A) → count f (xs ++ ys) ≡ count f xs + count f ys
count-append f [] ys = omega arith
count-append f (x ∷ xs) ys = omega (arith, count-append f xs ys)

pub count-map {ℓ κ} :
    {A : Type ℓ} {B : Type κ} (f : B → Bool) (g : A → B) (xs : List A)
    → count f (map g xs) ≡ count (λ x. f (g x)) xs
count-map f g [] = refl
count-map f g (x ∷ xs) = omega (arith, count-map f g xs)

pub count_none {ℓ} :
    {A : Type ℓ} (f : A → Bool) (xs : List A) → All (λ x. f x ≡ false) xs → count f xs ≡ 0
count_none f [] h = refl
count_none f (x ∷ xs) (first, h) = rw first (omega (arith, count_none f xs h))

pub All-map {ℓ κ μ} :
    {A : Type ℓ} {P : A → Type κ} {Q : A → Type μ}
    → ((x : A) → P x → Q x)
    → (xs : List A) → All P xs
    → All Q xs
All-map f [] h = tt
All-map f (x ∷ xs) (first, h) = (f x first, All-map f xs h)
