-- ===== src/Entropy/Order0/LowBit.antt =====
-- What the order-0 model's loops use of the lowest bits of the indices up to 256, by computation.
use aether_arch.Base.{
  ℕ, zero, suc, ◌+◌, ◌-◌, ◌*◌, ◌%◌, ◌^◌, ◌≤◌, ◌<◌, ◌≡◌, refl, Bool, true, false, ◌&&◌, ◌||◌, not,
  leb, ltb, ◌==◌, if◌then◌else◌, arith, lt→ltb, sym, ltb→lt, leb→le, ==_iff,
}
use native.Mathlib.Decide.{dec_lt}
use Prim.Native.Nat.{bit_and}
use aether_arch.Entropy.Order0.{low_bit}

abbrev all_below : ℕ → (ℕ → Bool) → Bool
all_below zero p = true
all_below (suc n) p = p n && all_below n p

both : (a b : Bool) → (a && b) ≡ true → (a ≡ true) × (b ≡ true)
both a b h = ground arith

holds_below : (n : ℕ) (p : ℕ → Bool) → all_below n p ≡ true → (k : ℕ) → k < n → p k ≡ true
holds_below zero p h k lt = absurd (omega arith)
holds_below (suc n) p h k lt =
    let (last, others) = both (p n) (all_below n p) h in
    elim (dec_lt k n) [
      | yes below ↦ holds_below n p others k below
      | no ge ↦ let e : k ≡ n = omega arith in rw e last
    ]

-- A test of all pairs.
holds_pairs :
    (n m : ℕ) (p : ℕ → ℕ → Bool)
    → all_below n (λ i. all_below m (p i)) ≡ true
    → (i j : ℕ) → i < n
    → j < m
    → p i j ≡ true
holds_pairs n m p h i j hi hj =
    holds_below m (p i) (holds_below n (λ i. all_below m (p i)) h i hi) j hj

-- Of an index that is not 0.
abbrev is_bit : ℕ → Bool
is_bit k =
    let idx = suc k in
    ltb 0 (low_bit idx) && leb (low_bit idx) idx && bit_and idx k + low_bit idx == idx

all_bits : all_below 256 is_bit ≡ true
unfolding low_bit
all_bits = refl

pub record IsLowest (idx : ℕ) : Type 0 where
  pub positive : 0 < low_bit idx
  pub inside : low_bit idx ≤ idx
  pub cleared : bit_and idx (idx - 1) ≡ idx - low_bit idx

pub low_bit-IsLowest : (idx : ℕ) → 0 < idx → idx ≤ 256 → IsLowest idx
low_bit-IsLowest zero lo hi = absurd (omega arith)
low_bit-IsLowest (suc k) lo hi = parts k (holds_below 256 is_bit all_bits k (omega arith))
  where
    parts : (k : ℕ) → is_bit k ≡ true → IsLowest (suc k)
    parts k h =
        let (ranged, cleared) =
          both (ltb 0 (low_bit (suc k)) && leb (low_bit (suc k)) (suc k)) _ h in
        let (positive, inside) = both (ltb 0 (low_bit (suc k))) _ ranged in
        let pos = ltb→lt _ _ positive in
        let ins = leb→le _ _ inside in
        let sums = (==_iff _ _).0 cleared in
        let e : suc k - 1 ≡ k = omega arith in
        record { positive = pos; inside = ins; cleared = rw e (omega (arith, sums)) }

-- The entry `j` of the tree covers the indices above `j - low_bit j`, up to `j`.
abbrev pub covers : ℕ → ℕ → Bool
covers j idx = ltb (j - low_bit j) idx && leb idx j

abbrev iff : Bool → Bool → Bool
iff true b = b
iff false b = not b

abbrev is_step : ℕ → ℕ → Bool
is_step k j =
    if ltb k j
    then iff (covers (suc j) (suc k)) (covers (suc j) (suc k + low_bit (suc k)))
    else true

all_steps : all_below 256 (λ k. all_below 256 (is_step k)) ≡ true
unfolding low_bit
all_steps = refl

iff→eq : (a b : Bool) → iff a b ≡ true → a ≡ b
iff→eq true b h = sym h
iff→eq false true h = absurd (cc h)
iff→eq false false h = refl

-- An entry above `idx` covers it if it covers what follows it on the path of `fenwick_add`.
pub covers-step :
    (idx j : ℕ) → 0 < idx → idx < j → j ≤ 256 → covers j idx ≡ covers j (idx + low_bit idx)
covers-step zero j lo lt hi = absurd (omega arith)
covers-step (suc k) zero lo lt hi = absurd (omega arith)
covers-step (suc k) (suc j) lo lt hi =
    let checked = holds_pairs 256 256 is_step all_steps k j (omega arith) (omega arith) in
    iff→eq _ _ (rw (lt→ltb k j (omega arith)) at checked)

-- Up to where the entry `j` is complete when the loop of `rebuild_fenwick` has done `t` indices.
abbrev pub front : ℕ → ℕ → ℕ
front j zero = j - low_bit j
front j (suc t) = if suc t + low_bit (suc t) == j then suc t else front j t

abbrev is_next : ℕ → Bool
is_next t =
    let parent = suc t + low_bit (suc t) in
    front (suc t) t == t
    && front (suc t) 256 == t
    && (ltb 256 parent || front parent t == suc t - low_bit (suc t))

all_next : all_below 256 is_next ≡ true
unfolding low_bit
all_next = refl

pub record IsNext (t : ℕ) : Type 0 where
  pub complete : front (suc t) t ≡ t
  pub stays : front (suc t) 256 ≡ t
  pub joins :
      suc t + low_bit (suc t) ≤ 256 → front (suc t + low_bit (suc t)) t ≡ suc t - low_bit (suc t)

pub front-IsNext : (t : ℕ) → t < 256 → IsNext t
front-IsNext t lt =
    let (ranged, joined) =
      both (front (suc t) t == t && front (suc t) 256 == t) _
        (holds_below 256 is_next all_next t lt) in
    let (complete, stays) = both (front (suc t) t == t) _ ranged in
    record {
      complete = (==_iff _ _).0 complete;
      stays = (==_iff _ _).0 stays;
      joins = λ fits. (==_iff _ _).0 (or_inv (suc t + low_bit (suc t)) _ fits joined);
    }
  where
    or_inv : (a : ℕ) (b : Bool) → a ≤ 256 → (ltb 256 a || b) ≡ true → b ≡ true
    or_inv a b fits h = ground arith

-- The candidates of the descent, with what is left of it.
abbrev is_candidate : ℕ → ℕ → Bool
is_candidate t lo =
    if lo % (2 * 2 ^ t) == 0
    then (low_bit (lo + 2 ^ t) == 2 ^ t && leb (lo + 2 * 2 ^ t) 256)
      && ((lo + 2 ^ t) % 2 ^ t == 0 && lo % 2 ^ t == 0)
    else true

all_candidates : all_below 8 (λ t. all_below 256 (is_candidate t)) ≡ true
unfolding low_bit
all_candidates = refl

pub record IsCandidate (t lo : ℕ) : Type 0 where
  pub bit : low_bit (lo + 2 ^ t) ≡ 2 ^ t
  pub inside : lo + 2 * 2 ^ t ≤ 256
  pub upper : (lo + 2 ^ t) % 2 ^ t ≡ 0
  pub lower : lo % 2 ^ t ≡ 0

pub low_bit-IsCandidate : (t lo : ℕ) → t < 8 → lo < 256 → lo % (2 * 2 ^ t) ≡ 0 → IsCandidate t lo
low_bit-IsCandidate t lo ht hlo e =
    let checked = holds_pairs 8 256 is_candidate all_candidates t lo ht hlo in
    let even : (lo % (2 * 2 ^ t) == 0) ≡ true = (==_iff _ _).1 e in
    let (here, next) =
      both (low_bit (lo + 2 ^ t) == 2 ^ t && leb (lo + 2 * 2 ^ t) 256) _ (rw even at checked) in
    let (bit, inside) = both (low_bit (lo + 2 ^ t) == 2 ^ t) _ here in
    let (upper, lower) = both ((lo + 2 ^ t) % 2 ^ t == 0) _ next in
    record {
      bit = (==_iff _ _).0 bit;
      inside = leb→le _ _ inside;
      upper = (==_iff _ _).0 upper;
      lower = (==_iff _ _).0 lower;
    }
