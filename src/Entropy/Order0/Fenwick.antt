-- ===== src/Entropy/Order0/Fenwick.antt =====
-- The Fenwick tree answers prefix queries, and additions to it keep it one.
pub mod Rebuild
use aether_arch.Base.{
  ℕ, zero, suc, ◌+◌, ◌-◌, ◌*◌, ◌≤◌, ◌<◌, ◌≡◌, ◌≢◌, refl, sym, ap, ◌∙◌, Bool, true, false, ◌&&◌,
  List, length, get_or, set, length-set, get_or-set_add, get_or-set_ne, leb, ltb, ◌==◌,
  if◌then◌else◌, arith, lt→ltb, le→leb, Bool-cases, inl, inr, ==_iff, not, leb→le, if_rule,
}
use Prim.Native.Nat.{bit_and}
use native.Mathlib.Decide.{dec_lt}
use mathlib.Core.Path.{subst}
use aether_arch.Entropy.Order0.{low_bit, add_at, add_loop, fenwick_add, prefix_loop, fenwick_prefix}
use aether_arch.Entropy.Order0.LowBit.{covers, covers-step, IsLowest, low_bit-IsLowest}
use aether_arch.Entropy.Order0.Sums.{prefix, prefix-add_at}

-- Entry `j` holds the sum of the counts that it covers.
pub record IsFenwick (counts fenwick : List ℕ) : Type 0 where
  pub full : length fenwick ≡ 256
  pub sums :
      (j : ℕ)
      → 0 < j
      → j ≤ 256
      → prefix counts (j - low_bit j) + get_or fenwick (j - 1) 0 ≡ prefix counts j

prefix_loop_lem :
    (counts fenwick : List ℕ) (h : IsFenwick counts fenwick) (rounds idx sum : ℕ)
    → idx ≤ rounds
    → idx ≤ 256
    → prefix_loop rounds idx sum fenwick ≡ sum + prefix counts idx
unfolding prefix_loop
prefix_loop_lem counts fenwick h zero idx sum enough le =
    let e : idx ≡ 0 = omega arith in rw e (unfold prefix in omega arith)
prefix_loop_lem counts fenwick h (suc rounds) zero sum enough le = unfold prefix in omega arith
prefix_loop_lem counts fenwick h (suc rounds) (suc k) sum enough le =
    let bit = low_bit-IsLowest (suc k) (omega arith) le in
    let some : ltb 0 (suc k) ≡ true = ground arith in
    let next =
      prefix_loop_lem counts fenwick h rounds (bit_and (suc k) (suc k - 1))
        (sum + get_or fenwick (suc k - 1) 0) (omega (arith, bit.cleared, bit.positive))
        (omega (arith, bit.cleared)) in
    rw some (omega (arith, next, ap (prefix counts) bit.cleared, h.sums (suc k) (omega arith) le))

-- A prefix query returns the sum of the first `len` counts.
pub fenwick_prefix-prefix :
    (counts fenwick : List ℕ) (h : IsFenwick counts fenwick) (len : ℕ)
    → len ≤ 256
    → fenwick_prefix fenwick len ≡ prefix counts len
fenwick_prefix-prefix counts fenwick h len le =
    unfold fenwick_prefix in
    omega (arith, prefix_loop_lem counts fenwick h len len 0 (omega arith) le)

-- An addition to one entry.
pub get_or-add_at :
    (xs : List ℕ) (i d j : ℕ)
    → i < length xs
    → get_or (add_at xs i d) j 0 ≡ get_or xs j 0 + (if i == j then d else 0)
get_or-add_at xs i d j h = get_or-set_add xs i d j h

add_loop_lem :
    (rounds idx d : ℕ) (fenwick : List ℕ) (j : ℕ)
    → length fenwick ≡ 256
    → 0 < idx
    → 257 ≤ idx + rounds
    → 0 < j
    → j ≤ 256
    → get_or (add_loop rounds idx d fenwick) (j - 1) 0
      ≡ get_or fenwick (j - 1) 0 + (if covers j idx then d else 0)
unfolding add_loop
add_loop_lem zero idx d fenwick j full some enough lo hi = ground arith
add_loop_lem (suc rounds) idx d fenwick j full some enough lo hi = elim (Bool-cases (leb idx 256)) [
  | inr out ↦ rw out (ground arith)
  | inl within ↦
      let bit = low_bit-IsLowest idx some (leb→le idx 256 within) in
      let here =
        get_or-add_at fenwick (idx - 1) d (j - 1) (omega (arith, leb→le idx 256 within, full)) in
      let next =
        add_loop_lem rounds (idx + low_bit idx) d (add_at fenwick (idx - 1) d) j
          (length-set fenwick (idx - 1) _ ∙ full) (omega arith) (omega (arith, bit.positive)) lo
          hi in
      rw within (
        next ∙ elim (dec_lt idx j) [
          | yes before ↦
              let stays = covers-step idx j some before hi in
              let apart : (idx - 1 == j - 1) ≡ false = ground arith in
              rw (here, apart) (rw stays (omega arith))
          | no ge ↦ ground (arith, here, bit.positive)
        ])
]

length-add_loop :
    (rounds idx d : ℕ) (fenwick : List ℕ) → length (add_loop rounds idx d fenwick) ≡ length fenwick
unfolding add_loop
length-add_loop zero idx d fenwick = refl
length-add_loop (suc rounds) idx d fenwick =
    if_rule (λ xs. length xs ≡ length fenwick) (leb idx 256) _ fenwick
      (λ within.
        length-add_loop rounds (idx + low_bit idx) d (add_at fenwick (idx - 1) d)
        ∙ length-set fenwick (idx - 1) _)
      (λ out. refl)

covered :
    (d i j low : ℕ)
    → low ≤ j
    → 0 < low
    → (if ltb i (j - low) then d else 0) + (if ltb (j - low) (i + 1) && leb (i + 1) j then d else 0)
      ≡ (if ltb i j then d else 0)
covered d i j low inside positive = ground arith

-- Adding to a count and to the tree keeps the tree one of the counts.
pub fenwick_add-IsFenwick :
    (counts fenwick : List ℕ) (i d : ℕ)
    → length counts ≡ 256
    → i < 256
    → IsFenwick counts fenwick
    → IsFenwick (add_at counts i d) (fenwick_add i d fenwick)
unfolding fenwick_add
fenwick_add-IsFenwick counts fenwick i d size small h = record {
  full = length-add_loop 256 (i + 1) d fenwick ∙ h.full;
  sums = λ j lo hi.
      let entry = add_loop_lem 256 (i + 1) d fenwick j h.full (omega arith) (omega arith) lo hi in
      let before = prefix-add_at counts i d (j - low_bit j) (omega (arith, size)) in
      let after = prefix-add_at counts i d j (omega (arith, size)) in
      let bit = low_bit-IsLowest j lo hi in
      omega (
        arith,
        entry,
        before,
        after,
        h.sums j lo hi,
        covered d i j (low_bit j) bit.inside bit.positive,
      );
}
