-- ===== src/Entropy/Order0/Model.antt =====
-- What every reachable state of the order-0 model satisfies.
use aether_arch.Base.{
  ℕ, zero, suc, ◌+◌, ◌≤◌, ◌<◌, ◌≡◌, refl, sym, ap, ◌∙◌, List, [], ◌∷◌, length, get_or, map,
  replicate, length-set, length-map, ltb, arith, Bool-cases, inl, inr, true, lt→ltb,
}
use aether_arch.Entropy.Order0.{
  Order0Model, add_at, sum, halve, fresh, rescale, update, rebuild_fenwick,
}
use aether_arch.Entropy.Order0.Sums.{prefix, prefix_all, prefix-add_at, halve_positive, sum-halve}
use aether_arch.Entropy.Order0.Fenwick.{IsFenwick, fenwick_add-IsFenwick, get_or-add_at}
use aether_arch.Entropy.Order0.Fenwick.Rebuild.{rebuild_fenwick-IsFenwick}

-- 256 counts, none of them 0; a tree and a total that are theirs; and no total near the end of 32 bits.
pub record IsModel (m : Order0Model) : Type 0 where
  pub full : length m.counts ≡ 256
  pub positive : (i : ℕ) → i < 256 → 0 < get_or m.counts i 0
  pub tree : IsFenwick m.counts m.fenwick
  pub adds_up : prefix m.counts 256 ≡ m.total
  pub bounded : m.total ≤ 512_000_000

-- Counts with their tree and their sum.
pub counts-IsModel :
    (counts : List ℕ)
    → length counts ≡ 256
    → ((i : ℕ) → i < 256 → 0 < get_or counts i 0)
    → sum counts ≤ 512_000_000
    → IsModel (record { counts = counts; fenwick = rebuild_fenwick counts; total = sum counts })
counts-IsModel counts full positive small = record {
  full = full;
  positive = positive;
  tree = rebuild_fenwick-IsFenwick counts full;
  adds_up = ap (prefix counts) (sym full) ∙ prefix_all counts;
  bounded = small;
}

get_or-replicate : (n v i : ℕ) → i < n → get_or (replicate n v) i 0 ≡ v
get_or-replicate zero v i h = absurd (omega arith)
get_or-replicate (suc n) v zero h = refl
get_or-replicate (suc n) v (suc i) h = get_or-replicate n v i (omega arith)

pub fresh-IsModel : IsModel fresh
unfolding fresh
fresh-IsModel =
    counts-IsModel (replicate 256 1) refl
      (λ i h. let e = get_or-replicate 256 1 i h in omega (arith, e)) (omega arith)

get_or-halve : (xs : List ℕ) (i : ℕ) → i < length xs → 0 < get_or (map halve xs) i 0
get_or-halve [] i h = absurd (omega arith)
get_or-halve (x ∷ xs) zero h = halve_positive x
get_or-halve (x ∷ xs) (suc i) h = get_or-halve xs i (omega arith)

rescale-IsModel :
    (m : Order0Model) → length m.counts ≡ 256 → sum m.counts ≤ 512_000_001 → IsModel (rescale m)
unfolding rescale
rescale-IsModel m full small =
    counts-IsModel (map halve m.counts) (length-map m.counts halve ∙ full)
      (λ i h. get_or-halve m.counts i (omega (arith, full)))
      (omega (arith, sum-halve m.counts, full))

-- An update with any byte keeps the invariant: 256 counts of 1 or more, the tree and the total of
-- these counts, and a total of at most 512000000, over a rescaling as well.
pub update-IsModel : (m : Order0Model) (b : ℕ) → b < 256 → IsModel m → IsModel (update m b)
unfolding update
update-IsModel m b small h = elim (Bool-cases (ltb 1000000 (m.total + 1))) [
  | inl many ↦ rw many (
      rescale-IsModel (record m { counts = add_at m.counts b 1; total = m.total + 1 }) size
        (omega (arith, total, h.bounded)))
  | inr few ↦ rw few (record {
    full = size;
    positive = λ i lt. ground (arith, get_or-add_at m.counts b 1 i inside, h.positive i lt);
    tree = fenwick_add-IsFenwick m.counts m.fenwick b 1 h.full small h.tree;
    adds_up = counted;
    bounded = ground (arith, few);
  })
]
  where
    inside : b < length m.counts
    inside = omega (arith, h.full)

    size : length (add_at m.counts b 1) ≡ 256
    size = length-set m.counts b _ ∙ h.full

    below : ltb b 256 ≡ true
    below = lt→ltb b 256 small

    counted : prefix (add_at m.counts b 1) 256 ≡ m.total + 1
    counted = omega (arith, rw below at (prefix-add_at m.counts b 1 256 inside), h.adds_up)

    total : sum (add_at m.counts b 1) ≡ m.total + 1
    total =
        sym (prefix_all (add_at m.counts b 1)) ∙ ap (prefix (add_at m.counts b 1)) size ∙ counted
