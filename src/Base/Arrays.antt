-- ===== src/Base/Arrays.antt =====
-- Reads and writes of a list of numbers taken as an array.
use Prim.Native.Nat.{ℕ, zero, suc, ◌+◌, ◌<◌}
use mathlib.Core.Path.{◌≡◌, refl}
use mathlib.Core.Logic.{◌≢◌}
use mathlib.Core.List.{List, [], ◌∷◌}
use native.Mathlib.Omega.{arith}
use aether_arch.Base.Lists.{length, get_or, set}
use aether_arch.Base.Tests.{◌==◌, if◌then◌else◌}

pub get_or-set_self : (xs : List ℕ) (i v : ℕ) → i < length xs → get_or (set xs i v) i 0 ≡ v
get_or-set_self [] i v h = absurd (omega arith)
get_or-set_self (x ∷ xs) zero v h = refl
get_or-set_self (x ∷ xs) (suc i) v h = get_or-set_self xs i v (omega arith)

pub get_or-set_ne : (xs : List ℕ) (i j v : ℕ) → i ≢ j → get_or (set xs i v) j 0 ≡ get_or xs j 0
get_or-set_ne [] i j v h = refl
get_or-set_ne (x ∷ xs) zero zero v h = absurd (h refl)
get_or-set_ne (x ∷ xs) zero (suc j) v h = refl
get_or-set_ne (x ∷ xs) (suc i) zero v h = refl
get_or-set_ne (x ∷ xs) (suc i) (suc j) v h = get_or-set_ne xs i j v (omega arith)

-- Two lists of one length with the same elements are equal.
pub list_ext :
    (xs ys : List ℕ)
    → length xs ≡ length ys
    → ((i : ℕ) → i < length xs → get_or xs i 0 ≡ get_or ys i 0)
    → xs ≡ ys
list_ext [] [] e h = refl
list_ext [] (y ∷ ys) e h = absurd (omega arith)
list_ext (x ∷ xs) [] e h = absurd (omega arith)
list_ext (x ∷ xs) (y ∷ ys) e h =
    cc (h 0 (omega arith), list_ext xs ys (omega arith) (λ i p. h (suc i) (omega arith)))

-- An addition to one place.
pub get_or-set_add :
    (xs : List ℕ) (i d j : ℕ)
    → i < length xs
    → get_or (set xs i (get_or xs i 0 + d)) j 0 ≡ get_or xs j 0 + (if i == j then d else 0)
get_or-set_add [] i d j h = absurd (omega arith)
get_or-set_add (x ∷ xs) zero d zero h = refl
get_or-set_add (x ∷ xs) zero d (suc j) h = ground arith
get_or-set_add (x ∷ xs) (suc i) d zero h = ground arith
get_or-set_add (x ∷ xs) (suc i) d (suc j) h = ground (arith, get_or-set_add xs i d j (omega arith))
