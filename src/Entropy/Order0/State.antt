-- ===== src/Entropy/Order0/State.antt =====
-- aether-core/src/entropy/order0.rs: the saved state of the order-0 model.
use aether_arch.Base.{
  ℕ, zero, suc, ◌+◌, ◌-◌, ◌*◌, ◌^◌, ◌≤◌, ◌<◌, ◌≡◌, refl, sym, ap, ◌∙◌, Bool, true, false, ◌||◌, not,
  List, [], ◌∷◌, ◌++◌, length, get_or, take, drop, All, Option, none, some, to_le, from_le,
  length-to_le, from_le-to_le, length-append, take-append, drop-append, ltb, ◌==◌, if◌then◌else◌,
  arith, list_ext, ==_iff,
}
use mathlib.Core.Path.{subst}
use aether_arch.Entropy.Order0.{Order0Model, sum, rebuild_fenwick}
use aether_arch.Entropy.Order0.Sums.{prefix, prefix_all}
use aether_arch.Entropy.Order0.Fenwick.{IsFenwick}
use aether_arch.Entropy.Order0.Fenwick.Rebuild.{rebuild_fenwick-IsFenwick}
use aether_arch.Entropy.Order0.Model.{IsModel, counts-IsModel}

-- `save_state`: the version, and the counts in four bytes each.
abbrev pub write_counts : List ℕ → List ℕ
write_counts [] = []
write_counts (c ∷ counts) = to_le 4 c ++ write_counts counts

unfoldable pub save_state : Order0Model → List ℕ
save_state m = 1 ∷ write_counts m.counts

abbrev pub max_count : ℕ
max_count = 2_000_000

abbrev put : ℕ → Option (List ℕ) → Option (List ℕ)
put c none = none
put c (some counts) = some (c ∷ counts)

-- The counts of `load_state`, of which none may be 0 or above the maximum.
unfoldable pub read_counts : ℕ → List ℕ → Option (List ℕ)
unfolding from_le
read_counts zero input = some []
read_counts (suc n) input =
    let c = from_le (take 4 input) in
    let rest = read_counts n (drop 4 input) in
    if c == 0 || ltb max_count c then none else put c rest

abbrev installed : Option (List ℕ) → Option Order0Model
installed none = none
installed (some counts) =
    if ltb (2 ^ 32 - 1) (sum counts)
    then none
    else some (record { counts = counts; fenwick = rebuild_fenwick counts; total = sum counts })

-- The model that the state becomes. Where `load_state` returns `false`, it is left as it was.
unfoldable pub load_state : List ℕ → Option Order0Model
unfolding read_counts rebuild_fenwick
load_state [] = none
load_state (version ∷ input) =
    if not (length (version ∷ input) == 1 + 256 * 4) || not (version == 1)
    then none
    else installed (read_counts 256 input)

length-write_counts : (counts : List ℕ) → length (write_counts counts) ≡ 4 * length counts
length-write_counts [] = omega arith
length-write_counts (c ∷ counts) = omega (
  arith,
  length-append (to_le 4 c) (write_counts counts),
  length-to_le 4 c,
  length-write_counts counts,
)

abbrev pub IsCount : ℕ → Type 0
IsCount c = (0 < c) × (c ≤ max_count)

read_counts-write_counts :
    (counts : List ℕ)
    → All IsCount counts
    → read_counts (length counts) (write_counts counts) ≡ some counts
unfolding read_counts
read_counts-write_counts [] h = refl
read_counts-write_counts (c ∷ counts) ((some_count, small), h) =
    let word = to_le 4 c in
    let four = length-to_le 4 c in
    let accepted : (c == 0 || ltb max_count c) ≡ false = ground arith in
    rw
      (take-append 4 word (write_counts counts) four, drop-append 4 word (write_counts counts) four)
      (rw (from_le-to_le 4 c (omega (arith, small)))
        (rw (accepted, read_counts-write_counts counts h)))

-- Counts have one tree.
same_tree : (counts xs ys : List ℕ) → IsFenwick counts xs → IsFenwick counts ys → xs ≡ ys
same_tree counts xs ys h g = list_ext xs ys (h.full ∙ sym g.full) entry
  where
    entry : (i : ℕ) → i < length xs → get_or xs i 0 ≡ get_or ys i 0
    entry i lt =
        let e : suc i - 1 ≡ i = omega arith in
        let small : suc i ≤ 256 = omega (arith, h.full) in
        omega (
          arith,
          rw e at (h.sums (suc i) (omega arith) small),
          rw e at (g.sums (suc i) (omega arith) small),
        )

sum_bound : (counts : List ℕ) → All IsCount counts → sum counts ≤ 2_000_000 * length counts
sum_bound [] h = omega arith
sum_bound (c ∷ counts) ((low, high), h) = omega (arith, sum_bound counts h)

All-get_or :
    (counts : List ℕ) (i : ℕ) → All IsCount counts → i < length counts → 0 < get_or counts i 0
All-get_or [] i h lt = absurd (omega arith)
All-get_or (c ∷ counts) zero ((low, high), h) lt = low
All-get_or (c ∷ counts) (suc i) (first, h) lt = All-get_or counts i h (omega arith)

-- For a model that satisfies the invariant and has no count above the maximum, loading what
-- `save_state` wrote gives the model back, its tree and total included.
pub load_state-save_state :
    (m : Order0Model) → IsModel m → All IsCount m.counts → load_state (save_state m) ≡ some m
load_state-save_state m h counts =
    let body = write_counts m.counts in
    let size : (length (1 ∷ body) == 1 + 256 * 4) ≡ true =
      (==_iff _ _).1 (omega (arith, length-write_counts m.counts, h.full)) in
    let read : read_counts 256 body ≡ some m.counts =
      subst (λ n. read_counts n body ≡ some m.counts) h.full
        (read_counts-write_counts m.counts counts) in
    let total_eq : sum m.counts ≡ m.total =
      sym (prefix_all m.counts) ∙ ap (prefix m.counts) h.full ∙ h.adds_up in
    let fits : ltb (2 ^ 32 - 1) (sum m.counts) ≡ false = ground (arith, total_eq, h.bounded) in
    let tree_eq =
      same_tree m.counts _ m.fenwick (rebuild_fenwick-IsFenwick m.counts h.full) h.tree in
    unfold load_state save_state in rw size (ap installed read ∙ rw fits (rw (tree_eq, total_eq)))

read_counts-inv :
    (n : ℕ) (input counts : List ℕ)
    → read_counts n input ≡ some counts
    → (length counts ≡ n) × All IsCount counts
unfolding read_counts
read_counts-inv zero input counts e =
    subst (λ cs. (length cs ≡ 0) × All IsCount cs) (some_inv e) (refl, tt)
  where
    some_inv : {xs ys : List ℕ} → some xs ≡ some ys → xs ≡ ys
    some_inv e = cc e
read_counts-inv (suc n) input counts e =
    let c = from_le (take 4 input) in
    put_inv c n (read_counts n (drop 4 input)) counts (c == 0 || ltb max_count c) e
      (λ accepted. ground (arith, accepted)) (λ rest e'. read_counts-inv n (drop 4 input) rest e')
  where
    put_inv :
        (c n : ℕ) (rest : Option (List ℕ)) (counts : List ℕ) (refused : Bool)
        → (if refused then none else put c rest) ≡ some counts
        → (refused ≡ false → IsCount c)
        → ((found : List ℕ) → rest ≡ some found → (length found ≡ n) × All IsCount found)
        → (length counts ≡ suc n) × All IsCount counts
    put_inv c n rest counts true e good others = absurd (cc e)
    put_inv c n none counts false e good others = absurd (cc e)
    put_inv c n (some found) counts false e good others =
        let (size, all) = others found refl in
        let same : c ∷ found ≡ counts = cc e in
        subst (λ cs. (length cs ≡ suc n) × All IsCount cs) same (ap suc size, (good refl, all))

-- Whatever the bytes, a model that `load_state` accepts satisfies the invariant of the order-0
-- model.
pub load_state-IsModel : (input : List ℕ) (m : Order0Model) → load_state input ≡ some m → IsModel m
unfolding load_state
load_state-IsModel [] m e = absurd (cc e)
load_state-IsModel (version ∷ input) m e =
    if_some (not (length (version ∷ input) == 1 + 256 * 4) || not (version == 1))
      (read_counts 256 input) m e (λ found e'. read_counts-inv 256 input found e')
  where
    accepted :
        (full : Bool) (found : List ℕ) (m : Order0Model)
        → (if full
            then none
            else some
                (record { counts = found; fenwick = rebuild_fenwick found; total = sum found }))
          ≡ some m
        → (length found ≡ 256) × All IsCount found
        → IsModel m
    accepted true found m e facts = absurd (cc e)
    accepted false found m e (size, counts) =
        let model =
          counts-IsModel found size (λ i lt. All-get_or found i counts (omega (arith, size)))
            (omega (arith, sum_bound found counts, size)) in
        let same : record { counts = found; fenwick = rebuild_fenwick found; total = sum found }
            ≡ m =
          cc e in
        subst IsModel same model

    if_some :
        (refused : Bool) (rest : Option (List ℕ)) (m : Order0Model)
        → (if refused then none else installed rest) ≡ some m
        → ((found : List ℕ) → rest ≡ some found → (length found ≡ 256) × All IsCount found)
        → IsModel m
    if_some true rest m e facts = absurd (cc e)
    if_some false none m e facts = absurd (cc e)
    if_some false (some found) m e facts =
        accepted (ltb (2 ^ 32 - 1) (sum found)) found m e (facts found refl)
