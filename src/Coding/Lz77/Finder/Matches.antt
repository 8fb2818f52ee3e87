-- ===== src/Coding/Lz77/Finder/Matches.antt =====
-- Whatever the tables hold, a match that the finder returns is one.
use aether_arch.Base.{
  ℕ, zero, suc, ◌+◌, ◌-◌, ◌%◌, ◌^◌, ◌≤◌, ◌<◌, ◌≡◌, refl, sym, ap, ◌∙◌, Bool, true, false, ◌&&◌,
  ◌||◌, List, [], ◌∷◌, length, get_or, take, drop, ltb, leb, ◌==◌, if◌then◌else◌, none, some, min,
  arith, if_rule, take-take, length-take, ==_iff, Bool-cases, inl, inr,
}
use mathlib.Core.Path.{subst}
use aether_arch.Coding.Lz77.Finder.{
  MatchFinder, common_prefix, quick_check, match_length, chain_ends, improves, improved, find_loop,
  find_best, window_size, min_match, max_match, max_chain,
}

-- `len` bytes at `pos` are those `offset` bytes before it; an overlap is allowed.
pub record IsMatch (xs : List ℕ) (pos : ℕ) (best : ℕ × ℕ) : Type 0 where
  pub positive : 0 < best.0
  pub reaches : best.0 ≤ pos
  pub in_window : best.0 < window_size
  pub inside : pos + best.1 ≤ length xs
  pub same : take best.1 (drop (pos - best.0) xs) ≡ take best.1 (drop pos xs)

common_prefix-take :
    (xs ys : List ℕ) → take (common_prefix xs ys) xs ≡ take (common_prefix xs ys) ys
unfolding common_prefix
common_prefix-take [] ys = refl
common_prefix-take (x ∷ xs) [] = refl
common_prefix-take (x ∷ xs) (y ∷ ys) = elim (Bool-cases (x == y)) [
  | inl e ↦ rw e (cc (common_prefix-take xs ys, (==_iff x y).0 e))
  | inr e ↦ rw e
]

common_prefix-le :
    (xs ys : List ℕ) → (common_prefix xs ys ≤ length xs) × (common_prefix xs ys ≤ length ys)
unfolding common_prefix
common_prefix-le [] ys = omega arith
common_prefix-le (x ∷ xs) [] = omega arith
common_prefix-le (x ∷ xs) (y ∷ ys) = ground (arith, common_prefix-le xs ys)

-- The first two bytes of a slice.
drop_two :
    (n : ℕ) (xs : List ℕ)
    → n + 1 < length xs
    → drop n xs ≡ get_or xs n 0 ∷ get_or xs (n + 1) 0 ∷ drop (n + 2) xs
drop_two zero [] h = absurd (omega arith)
drop_two zero (x ∷ []) h = absurd (omega arith)
drop_two zero (x ∷ y ∷ xs) h = refl
drop_two (suc n) [] h = absurd (omega arith)
drop_two (suc n) (x ∷ xs) h =
    let e1 : suc n + 1 ≡ suc (n + 1) = omega arith in
    let e2 : suc n + 2 ≡ suc (n + 2) = omega arith in rw (e1, e2) (drop_two n xs (omega arith))

quick_check_two :
    (xs : List ℕ) (pos ref_pos best_len : ℕ)
    → quick_check xs pos ref_pos best_len ≡ true
    → (get_or xs ref_pos 0 ≡ get_or xs pos 0) × (get_or xs (ref_pos + 1) 0 ≡ get_or xs (pos + 1) 0)
unfolding quick_check
quick_check_two xs pos ref_pos best_len h = ground arith

chain_goes_on :
    (pos last_ref_pos ref_pos : ℕ)
    → chain_ends pos last_ref_pos ref_pos ≡ false
    → (ref_pos < pos) × (pos - ref_pos < window_size)
unfolding chain_ends
chain_goes_on pos last_ref_pos ref_pos h = ground arith

-- A candidate that passes the early test matches over its whole length.
match_length_same :
    (xs : List ℕ) (pos ref_pos best_len max_len : ℕ)
    → quick_check xs pos ref_pos best_len ≡ true
    → ref_pos < pos
    → pos + max_len ≤ length xs
    → 2 < max_len
    → (take (match_length xs pos ref_pos max_len) (drop ref_pos xs)
        ≡ take (match_length xs pos ref_pos max_len) (drop pos xs))
      × (match_length xs pos ref_pos max_len ≤ max_len)
match_length_same xs pos ref_pos best_len max_len h before inside big =
    let (first, second) = quick_check_two xs pos ref_pos best_len h in
    rw (match_length_suc) (
      rw (drop_two ref_pos xs (omega arith), drop_two pos xs (omega arith))
          (cc (first, second, behind)),
      omega (arith, short),
    )
  where
    left : List ℕ
    left = drop (ref_pos + 2) xs

    right : List ℕ
    right = drop (pos + 2) xs

    n : ℕ
    n = common_prefix (take (max_len - 2) left) (take (max_len - 2) right)

    match_length_suc : match_length xs pos ref_pos max_len ≡ suc (suc n)
    match_length_suc = unfold match_length in omega arith

    short : n ≤ max_len - 2
    short = omega (
      arith,
      (common_prefix-le (take (max_len - 2) left) (take (max_len - 2) right)).0,
      length-take (max_len - 2) left,
    )

    behind : take n left ≡ take n right
    behind =
        sym (take-take n (max_len - 2) left short)
        ∙ common_prefix-take (take (max_len - 2) left) (take (max_len - 2) right)
        ∙ take-take n (max_len - 2) right short

module _ (rounds : ℕ) (m : MatchFinder) (xs : List ℕ) (pos max_len last_ref_pos ref_pos : ℕ)
    (best : ℕ × ℕ) where
  find_loop_ends :
      chain_ends pos last_ref_pos ref_pos ≡ true
      → find_loop (suc rounds) m xs pos max_len last_ref_pos ref_pos best ≡ best
  unfolding find_loop
  find_loop_ends h = rw h

  abbrev enough : Bool
  enough =
      improves xs pos max_len ref_pos best
      && (leb 258 (improved xs pos max_len ref_pos best).1
          || (improved xs pos max_len ref_pos best).1 == max_len)

  find_loop_goes :
      chain_ends pos last_ref_pos ref_pos ≡ false
      → find_loop (suc rounds) m xs pos max_len last_ref_pos ref_pos best ≡ (
          if enough
          then improved xs pos max_len ref_pos best
          else find_loop rounds m xs pos max_len ref_pos
              (m.prev (ref_pos % window_size))
              (improved xs pos max_len ref_pos best))
  unfolding find_loop
  find_loop_goes h = rw h

and_left : (a b : Bool) → (a && b) ≡ true → a ≡ true
and_left a b h = ground arith

improves_quick :
    (xs : List ℕ) (pos max_len ref_pos : ℕ) (best : ℕ × ℕ)
    → improves xs pos max_len ref_pos best ≡ true
    → quick_check xs pos ref_pos best.1 ≡ true
improves_quick xs pos max_len ref_pos best h =
    and_left (quick_check xs pos ref_pos best.1) (ltb best.1 (match_length xs pos ref_pos max_len))
      (unfold improves in h)

some_if :
    (r best : ℕ × ℕ)
    → (if leb min_match r.1 then some r else none) ≡ some best
    → (r ≡ best) × (min_match ≤ best.1)
some_if r best h = ground arith

-- A best so far is either too short to count or a match.
abbrev Good : List ℕ → ℕ → ℕ × ℕ → Type 0
Good xs pos best = min_match ≤ best.1 → IsMatch xs pos best

module _ (m : MatchFinder) (xs : List ℕ) (pos max_len : ℕ) (inside : pos + max_len ≤ length xs)
    (big : 2 < max_len) where
  candidate :
      (ref_pos last_ref_pos best_len : ℕ)
      → chain_ends pos last_ref_pos ref_pos ≡ false
      → quick_check xs pos ref_pos best_len ≡ true
      → IsMatch xs pos ((pos - ref_pos) % 2 ^ 16, match_length xs pos ref_pos max_len)
  candidate ref_pos last_ref_pos best_len going quick =
      let (before, near) = chain_goes_on pos last_ref_pos ref_pos going in
      let (same, short) =
        match_length_same xs pos ref_pos best_len max_len quick before inside big in
      let e : pos - (pos - ref_pos) % 2 ^ 16 ≡ ref_pos = omega arith in
      record {
        positive = omega arith;
        reaches = omega arith;
        in_window = omega arith;
        inside = omega arith;
        same = rw e same;
      }

  improved-Good :
      (ref_pos last_ref_pos : ℕ) (best : ℕ × ℕ)
      → chain_ends pos last_ref_pos ref_pos ≡ false
      → Good xs pos best
      → Good xs pos (improved xs pos max_len ref_pos best)
  improved-Good ref_pos last_ref_pos best going g =
      unfold improved in
      if_rule (Good xs pos) (improves xs pos max_len ref_pos best) _ best
        (λ h _.
          candidate ref_pos last_ref_pos best.1 going
            (improves_quick xs pos max_len ref_pos best h))
        (λ _. g)

  find_loop-Good :
      (rounds last_ref_pos ref_pos : ℕ) (best : ℕ × ℕ)
      → Good xs pos best
      → Good xs pos (find_loop rounds m xs pos max_len last_ref_pos ref_pos best)
  find_loop-Good zero last_ref_pos ref_pos best g = unfold find_loop in g
  find_loop-Good (suc rounds) last_ref_pos ref_pos best g =
      elim (Bool-cases (chain_ends pos last_ref_pos ref_pos)) [
        | inl ends ↦ rw (find_loop_ends rounds m xs pos max_len last_ref_pos ref_pos best ends) g
        | inr going ↦
            let next = improved xs pos max_len ref_pos best in
            let good = improved-Good ref_pos last_ref_pos best going g in
            rw (find_loop_goes rounds m xs pos max_len last_ref_pos ref_pos best going) (
              if_rule (Good xs pos) _ next _ (λ _. good)
                (λ _. find_loop-Good rounds ref_pos (m.prev (ref_pos % window_size)) next good))
      ]

-- Whatever the hash tables hold, at a position with three bytes or more behind it `find_best` returns
-- only matches: bytes equal to those at the offset back, the offset not 0, within the data and the
-- window, and at least three bytes long.
pub find_best-IsMatch :
    (m : MatchFinder) (xs : List ℕ) (pos hash : ℕ) (best : ℕ × ℕ)
    → pos + 2 < length xs
    → find_best m xs pos hash ≡ some best
    → IsMatch xs pos best × (min_match ≤ best.1)
find_best-IsMatch m xs pos hash best room e =
    let max_len = min (length xs - pos) max_match in
    let r = find_loop max_chain m xs pos max_len pos (m.head hash) (0, min_match - 1) in
    let (same, long) = some_if r best (unfold find_best in e) in
    let good =
      find_loop-Good m xs pos max_len (omega arith) (omega arith) max_chain pos (m.head hash)
        (0, min_match - 1) (λ h. absurd (omega arith)) in
    (subst (IsMatch xs pos) same (good (omega (arith, long, ap (λ (b : ℕ × ℕ). b.1) same))), long)
