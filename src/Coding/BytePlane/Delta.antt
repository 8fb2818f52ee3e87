-- ===== src/Coding/BytePlane/Delta.antt =====
-- Delta coding of a plane.
use aether_arch.Base.{
  ℕ, suc, ◌+◌, ◌-◌, ◌%◌, ◌<◌, ◌≡◌, refl, ap, List, [], ◌∷◌, length, arith, IsBytes, if_rule,
}
use aether_arch.Coding.BytePlane.{
  Entropies, differences, delta_encode, sums, delta_decode, should_delta, maybe_delta,
}

sums-differences :
    (before : ℕ) (xs : List ℕ)
    → before < 256
    → IsBytes xs
    → sums before (differences before xs) ≡ xs
unfolding sums differences
sums-differences before [] hb h = refl
sums-differences before (x ∷ xs) hb (hx, h) =
    let e : ((x + 256 - before) % 256 + before) % 256 ≡ x = omega arith in
    rw e (ap (λ t. x ∷ t) (sums-differences x xs hx h))

-- On bytes, `delta_decode` undoes `delta_encode`.
pub delta_decode-delta_encode : (xs : List ℕ) → IsBytes xs → delta_decode (delta_encode xs) ≡ xs
unfolding delta_encode delta_decode
delta_decode-delta_encode [] h = refl
delta_decode-delta_encode (x ∷ xs) (hx, h) = ap (λ t. x ∷ t) (sums-differences x xs hx h)

differences-IsBytes : (before : ℕ) (xs : List ℕ) → IsBytes (differences before xs)
unfolding differences
differences-IsBytes before [] = tt
differences-IsBytes before (x ∷ xs) = (omega arith, differences-IsBytes x xs)

length-differences : (before : ℕ) (xs : List ℕ) → length (differences before xs) ≡ length xs
unfolding differences
length-differences before [] = refl
length-differences before (x ∷ xs) = ap suc (length-differences x xs)

delta_encode-IsBytes : (xs : List ℕ) → IsBytes xs → IsBytes (delta_encode xs)
unfolding delta_encode
delta_encode-IsBytes [] h = tt
delta_encode-IsBytes (x ∷ xs) (hx, h) = (hx, differences-IsBytes x xs)

length-delta_encode : (xs : List ℕ) → length (delta_encode xs) ≡ length xs
unfolding delta_encode
length-delta_encode [] = refl
length-delta_encode (x ∷ xs) = ap suc (length-differences x xs)

module _ (entropies : Entropies) (xs : List ℕ) where
  pub maybe_delta-IsBytes : IsBytes xs → IsBytes (maybe_delta entropies xs)
  maybe_delta-IsBytes h =
      unfold maybe_delta in
      if_rule IsBytes (should_delta entropies xs) _ xs (λ _. delta_encode-IsBytes xs h) (λ _. h)

  pub length-maybe_delta : length (maybe_delta entropies xs) ≡ length xs
  length-maybe_delta =
      unfold maybe_delta in
      if_rule (λ ys. length ys ≡ length xs) (should_delta entropies xs) _ xs
        (λ _. length-delta_encode xs) (λ _. refl)
