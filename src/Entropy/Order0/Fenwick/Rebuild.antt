-- ===== src/Entropy/Order0/Fenwick/Rebuild.antt =====
-- Building the tree in one pass over the counts.
use aether_arch.Base.{
  ℕ, zero, suc, ◌+◌, ◌-◌, ◌≤◌, ◌<◌, ◌≡◌, refl, ap, ◌∙◌, true, false, List, length, get_or,
  length-set, leb, ◌==◌, if◌then◌else◌, arith, leb→le, Bool-cases, inl, inr, ==_iff,
}
use mathlib.Core.Path.{subst}
use aether_arch.Entropy.Order0.{low_bit, add_at, rebuild_loop, rebuild_fenwick}
use aether_arch.Entropy.Order0.LowBit.{front, front-IsNext}
use aether_arch.Entropy.Order0.Sums.{prefix, prefix-suc}
use aether_arch.Entropy.Order0.Fenwick.{IsFenwick, get_or-add_at}

-- After `t` indices every entry holds the sum up to its front, and its own count.
record IsPartial (counts : List ℕ) (t : ℕ) (fenwick : List ℕ) : Type 0 where
  pub full : length fenwick ≡ 256
  pub sums :
      (j : ℕ)
      → 0 < j
      → j ≤ 256
      → prefix counts (j - low_bit j) + get_or fenwick (j - 1) 0
        ≡ prefix counts (front j t) + get_or counts (j - 1) 0

abbrev round : ℕ → List ℕ → List ℕ
round t fenwick =
    let parent = suc t + low_bit (suc t) in
    if leb parent 256 then add_at fenwick (parent - 1) (get_or fenwick (suc t - 1) 0) else fenwick

-- The entry that a round completes.
entry_done :
    (counts fenwick : List ℕ) (t : ℕ)
    → t < 256
    → IsPartial counts t fenwick
    → prefix counts (suc t - low_bit (suc t)) + get_or fenwick t 0 ≡ prefix counts (suc t)
entry_done counts fenwick t lt h =
    let e : suc t - 1 ≡ t = omega arith in
    let now = rw e at (h.sums (suc t) (omega arith) (omega arith)) in
    omega (arith, now, ap (prefix counts) (front-IsNext t lt).complete, prefix-suc counts t)

round-IsPartial :
    (counts fenwick : List ℕ) (t : ℕ)
    → t < 256
    → IsPartial counts t fenwick
    → IsPartial counts (suc t) (round t fenwick)
round-IsPartial counts fenwick t lt h = elim (Bool-cases (leb (suc t + low_bit (suc t)) 256)) [
  | inr out ↦ rw out (record {
    full = h.full;
    sums = λ j lo hi.
        let apart : (suc t + low_bit (suc t) == j) ≡ false = ground (arith, out, hi) in
        rw apart (h.sums j lo hi);
  })
  | inl fits ↦ rw fits (record {
    full = length-set fenwick (suc t + low_bit (suc t) - 1) _ ∙ h.full;
    sums = λ j lo hi. joined j lo hi (leb→le _ _ fits);
  })
]
  where
    joined :
        (j : ℕ)
        → 0 < j
        → j ≤ 256
        → suc t + low_bit (suc t) ≤ 256
        → prefix counts (j - low_bit j)
            + get_or
                (add_at fenwick (suc t + low_bit (suc t) - 1) (get_or fenwick (suc t - 1) 0))
                (j - 1)
                0
          ≡ prefix counts (front j (suc t)) + get_or counts (j - 1) 0
    joined j lo hi fits =
        let parent = suc t + low_bit (suc t) in
        let same : suc t - 1 ≡ t = omega arith in
        let entry =
          get_or-add_at fenwick (parent - 1) (get_or fenwick (suc t - 1) 0) (j - 1)
            (omega (arith, h.full, fits)) in
        elim (Bool-cases (parent == j)) [
          | inl here ↦
              let e : parent ≡ j = (==_iff parent j).0 here in
              let there : (parent - 1 == j - 1) ≡ true = (==_iff _ _).1 (ap (λ k. k - 1) e) in
              let front_eq : front j t ≡ suc t - low_bit (suc t) =
                subst (λ k. front k t ≡ suc t - low_bit (suc t)) e
                  ((front-IsNext t lt).joins fits) in
              rw here (
                omega (
                  arith,
                  rw there at entry,
                  h.sums j lo hi,
                  ap (prefix counts) front_eq,
                  entry_done counts fenwick t lt h,
                  ap (λ k. get_or fenwick k 0) same,
                ))
          | inr apart ↦
              let off : (parent - 1 == j - 1) ≡ false = ground (arith, apart, lo) in
              rw apart (omega (arith, rw off at entry, h.sums j lo hi))
        ]

rebuild_loop-IsPartial :
    (counts fenwick : List ℕ) (rounds t : ℕ)
    → t + rounds ≡ 256
    → IsPartial counts t fenwick
    → IsPartial counts 256 (rebuild_loop rounds (suc t) fenwick)
unfolding rebuild_loop
rebuild_loop-IsPartial counts fenwick zero t e h =
    let e' : t ≡ 256 = omega (arith, e) in subst (λ k. IsPartial counts k fenwick) e' h
rebuild_loop-IsPartial counts fenwick (suc rounds) t e h =
    let next : suc t + 1 ≡ suc (suc t) = omega arith in
    rw next (
      rebuild_loop-IsPartial counts (round t fenwick) rounds (suc t) (omega (arith, e))
        (round-IsPartial counts fenwick t (omega (arith, e)) h))

-- What `rebuild_fenwick` makes of 256 counts is a tree of them.
pub rebuild_fenwick-IsFenwick :
    (counts : List ℕ) → length counts ≡ 256 → IsFenwick counts (rebuild_fenwick counts)
rebuild_fenwick-IsFenwick counts full =
    unfold rebuild_fenwick in
    let first : IsPartial counts 0 counts = record { full = full; sums = λ j lo hi. omega arith } in
    let last = rebuild_loop-IsPartial counts counts 256 0 refl first in
    record { full = last.full; sums = λ j lo hi. finished counts _ j lo hi last }
  where
    finished :
        (counts fenwick : List ℕ) (j : ℕ)
        → 0 < j
        → j ≤ 256
        → IsPartial counts 256 fenwick
        → prefix counts (j - low_bit j) + get_or fenwick (j - 1) 0 ≡ prefix counts j
    finished counts fenwick zero lo hi h = absurd (omega arith)
    finished counts fenwick (suc t) lo hi h =
        let e : suc t - 1 ≡ t = omega arith in
        let sums = h.sums (suc t) lo hi in
        omega (
          arith,
          rw e at sums,
          ap (prefix counts) (front-IsNext t (omega arith)).stays,
          prefix-suc counts t,
          ap (λ k. get_or fenwick k 0) e,
        )
