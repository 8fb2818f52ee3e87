-- ===== src/Pipeline/Reassemble/Shared.antt =====
-- A file made of shared blocks is the file made of blocks that stay, as long as a block stays where a
-- reference to it is left.
use aether_arch.Base.{
  ℕ, zero, suc, ◌+◌, ◌-◌, ◌≤◌, ◌<◌, ◌≡◌, ◌≢◌, refl, sym, ap, ◌∙◌, List, ◌++◌, length, length-set,
  get_elem?, get_elem?-set_self, get_elem?-set_ne, set, leb, ◌==◌, ==_iff, if◌then◌else◌, Option,
  none, some, Option-cases, arith, Bool-cases, inl, inr,
}
use aether_arch.Errors.{Result, ok, err, ◌>>=◌}
use aether_arch.Pipeline.Reassemble.{
  Blocks, block_at, missing, collect, take_or_clone, collect_shared,
}
use aether_arch.Pipeline.Reassemble.Counts.{count_at, inside, inside_suc, get_elem?_in}

pub block_at-set_ne :
    (now : Blocks) (i j : ℕ) → i ≢ j → block_at (set now i none) j ≡ block_at now j
block_at-set_ne now i j away =
    ap (λ o. elim o as (λ _. Option (List ℕ)) [ none ↦ none | some block ↦ block ])
      (get_elem?-set_ne now none away)

count_at-set_ne :
    (counts : List ℕ) (i j v : ℕ) → i ≢ j → count_at (set counts i v) j ≡ count_at counts j
count_at-set_ne counts i j v away =
    ap (λ o. elim o as (λ _. ℕ) [ none ↦ 0 | some c ↦ c ]) (get_elem?-set_ne counts v away)

count_at-set_self :
    (counts : List ℕ) (i v : ℕ) → i < length counts → count_at (set counts i v) i ≡ v
count_at-set_self counts i v lt =
    ap (λ o. elim o as (λ _. ℕ) [ none ↦ 0 | some c ↦ c ]) (get_elem?-set_self counts i v lt)

module _ (blocks : Blocks) where
  -- What is left of the blocks and the counts: `left j` references to block `j`, which is there as
  -- long as there is one.
  pub record Serves (left : ℕ → ℕ) (now : Blocks) (counts : List ℕ) : Type 0 where
    pub as_many : length now ≡ length blocks
    pub counted : length counts ≡ length blocks
    pub counts_left : (j : ℕ) → j < length blocks → count_at counts j ≡ left j
    pub there : (j : ℕ) → j < length blocks → 0 < left j → block_at now j ≡ block_at blocks j

  abbrev pub fewer : (ℕ → ℕ) → ℕ → ℕ → ℕ
  fewer left i j = left j - (if i == j then 1 else 0)

  -- With one reference less, and a place that is empty only if it was the last.
  fewer-Serves :
      (left : ℕ → ℕ) (i : ℕ) (now now' : Blocks) (counts : List ℕ)
      → Serves left now counts
      → i < length blocks
      → length now' ≡ length now
      → ((j : ℕ) → i ≢ j → block_at now' j ≡ block_at now j)
      → (1 < left i → now' ≡ now)
      → Serves (fewer left i) now' (set counts i (left i - 1))
  fewer-Serves left i now now' counts h lt size others same_one = record {
    as_many = size ∙ h.as_many;
    counted = length-set counts i (left i - 1) ∙ h.counted;
    counts_left = λ j in_range. counts_after j in_range;
    there = λ j in_range some_left. there_after j in_range some_left;
  }
    where
      counts_after :
          (j : ℕ) → j < length blocks → count_at (set counts i (left i - 1)) j ≡ fewer left i j
      counts_after j in_range = elim (Bool-cases (i == j)) [
        | inl same ↦
            let e : i ≡ j = (==_iff i j).0 same in
            rw same (
              ap (count_at (set counts i (left i - 1))) (sym e)
              ∙ count_at-set_self counts i (left i - 1) (omega (arith, h.counted, lt))
              ∙ ap (λ k. left k - 1) e)
        | inr apart ↦
            let away : i ≢ j = ground (arith, apart) in
            rw apart (
              count_at-set_ne counts i j (left i - 1) away ∙ h.counts_left j in_range ∙ omega arith)
      ]

      there_after :
          (j : ℕ) → j < length blocks → 0 < fewer left i j → block_at now' j ≡ block_at blocks j
      there_after j in_range some_left = elim (Bool-cases (i == j)) [
        | inl same ↦
            let e : i ≡ j = (==_iff i j).0 same in
            let more : 0 < left j - 1 = rw same at some_left in
            ap (λ b. block_at b j) (same_one (omega (arith, more, ap left e)))
            ∙ h.there j in_range (omega (arith, more))
        | inr apart ↦
            let away : i ≢ j = ground (arith, apart) in
            others j away ∙ h.there j in_range (omega (arith, some_left))
      ]

  abbrev found_at : ℕ → Result (List ℕ)
  found_at i = elim (block_at blocks i) [ none ↦ missing i | some block ↦ ok block ]

  pub take_or_clone-Serves :
      (left : ℕ → ℕ) (i : ℕ) (now : Blocks) (counts : List ℕ)
      → Serves left now counts
      → i < length blocks
      → 0 < left i
      → ((take_or_clone i now counts).0 ≡ found_at i)
        × Serves (fewer left i) (take_or_clone i now counts).1.0 (take_or_clone i now counts).1.1
  unfolding take_or_clone
  take_or_clone-Serves left i now counts h lt some_left =
      let (c, e) = get_elem?_in counts i (omega (arith, h.counted, lt)) in
      let at_i : c ≡ left i = sym (rw (count_at, e) refl) ∙ h.counts_left i lt in
      let e' : get_elem? counts i ≡ some (left i) = e ∙ ap some at_i in
      let block : found_at i ≡ (take_or_clone i now counts).0 =
        ap (λ o. elim o as (λ _. Result (List ℕ)) [ none ↦ missing i | some b ↦ ok b ])
          (sym (h.there i lt some_left)) in
      elim (Bool-cases (leb (left i) 1)) [
        | inl last ↦ (
          sym block,
          rw (take_or_clone, e', last)
              (fewer-Serves left i now (set now i none) counts h lt (length-set now i none)
                (λ j away. block_at-set_ne now i j away)
                (λ more. absurd (ground (arith, last, more)))),
        )
        | inr more ↦ (
          sym block,
          rw (take_or_clone, e', more)
              (fewer-Serves left i now now counts h lt refl (λ j away. refl) (λ several. refl)),
        )
      ]

  -- The references left behind a range.
  abbrev pub behind : (ℕ → ℕ) → ℕ → ℕ → ℕ → ℕ
  behind left count i j = left j - inside count i j

  pub Serves-same :
      (l l' : ℕ → ℕ) (now : Blocks) (counts : List ℕ)
      → ((j : ℕ) → l j ≡ l' j)
      → Serves l now counts
      → Serves l' now counts
  Serves-same l l' now counts e h = record {
    as_many = h.as_many;
    counted = h.counted;
    counts_left = λ j lt. h.counts_left j lt ∙ e j;
    there = λ j lt some_left. h.there j lt (omega (arith, e j, some_left));
  }

  abbrev add_rest : List ℕ → Result (List ℕ) → Result (List ℕ)
  add_rest block rest = rest >>= λ more. ok (block ++ more)

  first_ok :
      (block : List ℕ) (m : Result (List ℕ)) (found : List ℕ)
      → add_rest block m ≡ ok found
      → (rest : List ℕ) × (m ≡ ok rest)
  first_ok block (ok rest) found e = (rest, refl)
  first_ok block (err reason) found e = absurd (cc e)

  pub collect_shared-collect :
      (count i : ℕ) (left : ℕ → ℕ) (now : Blocks) (counts : List ℕ)
      → Serves left now counts
      → i + count ≤ length blocks
      → ((j : ℕ) → inside count i j ≤ left j)
      → ((collect_shared count i now counts).0 ≡ collect count i blocks)
        × ((found : List ℕ)
            → collect count i blocks ≡ ok found
            → Serves
                (behind left count i)
                (collect_shared count i now counts).1.0
                (collect_shared count i now counts).1.1)
  unfolding collect_shared collect
  collect_shared-collect zero i left now counts h fits enough =
      (refl, λ found e. Serves-same left (behind left 0 i) now counts (λ j. ground arith) h)
  collect_shared-collect (suc count) i left now counts h fits enough =
      let (e, s) =
        take_or_clone-Serves left i now counts h (omega (arith, fits))
          (omega (arith, enough i, first_inside)) in
      let taken = take_or_clone i now counts in
      elim (Option-cases (block_at blocks i)) [
        | inl gone ↦
            let failed : taken.0 ≡ missing i =
              e
              ∙ ap (λ o. elim o as (λ _. Result (List ℕ)) [ none ↦ missing i | some b ↦ ok b ])
                  gone in
            (
              rw (collect_shared, failed, collect, gone) refl,
              λ found done. absurd (cc (rw (collect, gone) at done)),
            )
        | inr (block, stays) ↦
            let given : taken.0 ≡ ok block =
              e
              ∙ ap (λ o. elim o as (λ _. Result (List ℕ)) [ none ↦ missing i | some b ↦ ok b ])
                  stays in
            let (same, serves) =
              collect_shared-collect count (i + 1) (fewer left i) taken.1.0 taken.1.1 s
                (omega (arith, fits)) (λ j. omega (arith, enough j, inside_suc i count j)) in
            (
              rw (collect_shared, given, collect, stays) (ap (add_rest block) same),
              λ found done.
                  let (rest, e') =
                    first_ok block (collect count (i + 1) blocks) found
                      (rw (collect, stays) at done) in
                  rw (collect_shared, given)
                    (Serves-same (behind (fewer left i) count (i + 1)) (behind left (suc count) i) _
                      _ (λ j. omega (arith, inside_suc i count j)) (serves rest e')),
            )
      ]
    where
      first_inside : inside (suc count) i i ≡ 1
      first_inside = ground arith
