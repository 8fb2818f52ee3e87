-- ===== src/Coding/Bwt/Chains.antt =====
-- The two chains of the inverse transform: one goes back from the last byte, one forward from the first.
use aether_arch.Base.{
  append-nil, ℕ, zero, suc, ◌+◌, ◌-◌, ◌*◌, ◌/◌, ◌%◌, ◌^◌, ◌≤◌, ◌<◌, ◌≡◌, ◌≢◌, ◌⊎◌, inl, inr, refl,
  sym, ap, ◌∙◌, List, [], ◌∷◌, ◌++◌, length, length-set, length-replicate, replicate, drop_all,
  get_or, get_or-set_self, get_or-set_ne, set, take, drop, take-append-drop, take-take, arith, ◌==◌,
  ==_iff, Bool-cases,
}
use aether_arch.Coding.Bwt.{lf_table, pack, invert, two_chains, walk_both}
use aether_arch.Coding.Bwt.Reads.{byte_at, drop_at, get_or-take}
use aether_arch.Coding.Bwt.Table.{lf_table_onto, length-lf_table}
use aether_arch.Coding.Bwt.Rows.{last, AreRows}
use aether_arch.Coding.Bwt.Walks.{
  length-pack, unpack, row, lf, same, length-row, row-lf, last-row, tail_step, packed_at,
  lf_bounded,
}

-- What the inverted table has at a place: an entry that leads there, or what it had before.
inverted :
    (i : ℕ) (forward inverse : List ℕ) (k : ℕ)
    → k < length inverse
    → ((j : ℕ) × (j < length forward)
        × (get_or forward j 0 / 256 ≡ k)
        × (get_or (invert i forward inverse) k 0
            ≡ (i + j) * 256 % 2 ^ 32 + get_or forward j 0 % 256))
      ⊎ ((get_or (invert i forward inverse) k 0 ≡ get_or inverse k 0)
          × ((j : ℕ) → j < length forward → get_or forward j 0 / 256 ≢ k))
unfolding invert
inverted i [] inverse k lt = inr (refl, λ j h e. absurd (omega arith))
inverted i (p ∷ forward) inverse k lt =
    let word = i * 256 % 2 ^ 32 + p % 256 in
    let placed = set inverse (p / 256) word in
    elim (inverted (i + 1) forward placed k (omega (arith, length-set inverse (p / 256) word))) [
      | inl (j, in_range, at, e) ↦
          let shift : i + 1 + j ≡ i + suc j = omega arith in
          inl (
            suc j,
            omega arith,
            at,
            e ∙ ap (λ s. s * 256 % 2 ^ 32 + get_or forward j 0 % 256) shift,
          )
      | inr (e, others) ↦ elim (Bool-cases (p / 256 == k)) [
        | inl equal ↦
            let here = (==_iff (p / 256) k).0 equal in
            let first : i + 0 ≡ i = omega arith in
            inl (
              0,
              omega arith,
              here,
              e
                  ∙ ap (λ x. get_or (set inverse x word) k 0) here
                  ∙ get_or-set_self inverse k word lt
                  ∙ ap (λ s. s * 256 % 2 ^ 32 + p % 256) (sym first),
            )
        | inr apart ↦
            let away : p / 256 ≢ k = ground (arith, apart) in
            inr (e ∙ get_or-set_ne inverse (p / 256) k word away, not_there away others)
      ]
    ]
  where
    not_there :
        p / 256 ≢ k
        → ((j : ℕ) → j < length forward → get_or forward j 0 / 256 ≢ k)
        → (j : ℕ) → j < length (p ∷ forward)
        → get_or (p ∷ forward) j 0 / 256 ≢ k
    not_there away others zero h = away
    not_there away others (suc j) h = others j (omega arith)

module _ (n : ℕ) (rows : List (List ℕ)) (bwt : List ℕ) (h : AreRows n rows bwt)
    (small : n ≤ 2 ^ 24) where
  abbrev row_of : ℕ → List ℕ
  row_of = row n rows bwt h

  abbrev forward : List ℕ
  forward = pack (lf_table bwt) bwt

  abbrev inverse : List ℕ
  inverse = invert 0 forward (replicate n 0)

  length-forward : length forward ≡ n
  length-forward = length-pack (lf_table bwt) bwt (length-lf_table bwt) ∙ same n rows bwt h

  behind : (i : ℕ) → i < n → row_of (lf n rows bwt h i) ≡ get_or bwt i 0 ∷ take (n - 1) (row_of i)
  behind i lt =
      row-lf n rows bwt h i lt
      ∙ ap (λ b. b ∷ take (n - 1) (row_of i)) (sym (last-row n rows bwt h i lt))

  -- The row that the forward chain goes to starts behind the byte that it writes.
  next_row :
      (k : ℕ)
      → k < n
      → (get_or inverse k 0 / 256 < n)
        × (row_of k ≡ get_or inverse k 0 % 256 ∷ take (n - 1) (row_of (get_or inverse k 0 / 256)))
  next_row k lt =
      let (i, in_range, onto) = lf_table_onto bwt k h.bytes (omega (arith, same n rows bwt h)) in
      elim (inverted 0 forward (replicate n 0) k (omega (arith, length-replicate {A = ℕ} n 0))) [
        | inr (e, others) ↦ absurd (
            others i (omega (arith, in_range, same n rows bwt h, length-forward)) (
              (packed_at n rows bwt h small i (omega (arith, in_range, same n rows bwt h))).0
              ∙ onto))
        | inl (j, below, at, e) ↦
            let j_small : j < n = omega (arith, below, length-forward) in
            let (place, byte) = packed_at n rows bwt h small j j_small in
            let entry : get_or inverse k 0 ≡ j * 256 % 2 ^ 32 + get_or bwt j 0 =
              let start : 0 + j ≡ j = omega arith in
              e
              ∙ ap (λ x. x * 256 % 2 ^ 32 + get_or forward j 0 % 256) start
              ∙ ap (λ b. j * 256 % 2 ^ 32 + b) byte in
            let parts = unpack j (get_or bwt j 0) (omega arith) (byte_at bwt j h.bytes) in
            let to_j : get_or inverse k 0 / 256 ≡ j = ap (λ x. x / 256) entry ∙ parts.0 in
            let to_byte : get_or inverse k 0 % 256 ≡ get_or bwt j 0 =
              ap (λ x. x % 256) entry ∙ parts.1 in
            let found : row_of k ≡ get_or bwt j 0 ∷ take (n - 1) (row_of j) =
              ap row_of (sym (sym place ∙ at)) ∙ behind j j_small in
            (omega (arith, to_j), rw (to_j, to_byte) found)
      ]

  two_chains-row :
      (rounds back fwd : ℕ) (tail : List ℕ)
      → rounds ≤ n
      → back < n
      → fwd < n
      → ((two_chains forward inverse rounds back fwd tail).0 ≡ take rounds (row_of fwd))
        × ((two_chains forward inverse rounds back fwd tail).1.1
            ≡ drop (n - rounds) (row_of back) ++ tail)
        × ((two_chains forward inverse rounds back fwd tail).1.0 < n)
        × (rounds < n
            → last n (row_of (two_chains forward inverse rounds back fwd tail).1.0)
              ≡ get_or (row_of back) (n - 1 - rounds) 0)
  unfolding two_chains
  two_chains-row zero back fwd tail le back_in fwd_in =
      let e : n - 1 - 0 ≡ n - 1 = omega arith in
      (
        refl,
        sym (
            ap (λ r. r ++ tail)
              (drop_all (n - 0) (row_of back)
                (omega (arith, length-row n rows bwt h back back_in)))),
        back_in,
        λ some. rw e,
      )
  two_chains-row (suc rounds) back fwd tail le back_in fwd_in =
      let (place, byte) = packed_at n rows bwt h small back back_in in
      let (next_in, next) = next_row fwd fwd_in in
      let i = get_or inverse fwd 0 / 256 in
      let (front, behind_it, last_in, middle) =
        two_chains-row rounds (lf n rows bwt h back) i (get_or bwt back 0 ∷ tail) (omega arith)
          (lf_bounded n rows bwt h back back_in) next_in in
      let e : n - rounds ≡ suc (n - suc rounds) = omega arith in
      rw (place, byte)
        (
          ap (λ t. get_or inverse fwd 0 % 256 ∷ t)
                (front ∙ sym (take-take rounds (n - 1) (row_of i) (omega arith)))
              ∙ sym (ap (take (suc rounds)) next),
          behind_it
              ∙ ap (λ k. drop k (row_of (lf n rows bwt h back)) ++ (get_or bwt back 0 ∷ tail)) e
              ∙ tail_step n rows bwt h back (n - suc rounds) tail back_in (omega arith),
          last_in,
          λ some.
              let e' : n - 1 - rounds ≡ suc (n - 1 - suc rounds) = omega arith in
              middle (omega arith)
              ∙ ap (λ k. get_or (row_of (lf n rows bwt h back)) k 0) e'
              ∙ ap (λ r. get_or r (suc (n - 1 - suc rounds)) 0) (row-lf n rows bwt h back back_in)
              ∙ get_or-take (n - 1) (row_of back) (n - 1 - suc rounds) (omega arith),
        )

  pub walk_both-row : (primary : ℕ) → primary < n → walk_both forward n primary ≡ row_of primary
  unfolding walk_both
  walk_both-row primary lt =
      let r = row_of primary in
      let size = length-row n rows bwt h primary lt in
      let half = n / 2 in
      let found = two_chains forward inverse half primary primary [] in
      let (front, behind_it, last_in, middle) =
        two_chains-row half primary primary [] (omega arith) lt lt in
      let ends : found.1.1 ≡ drop (n - half) r = behind_it ∙ append-nil (drop (n - half) r) in
      elim (Bool-cases (n % 2 == 1)) [
        | inr even ↦
            let e : n - half ≡ half = ground (arith, even) in
            rw even (cc (front, ends, e, take-append-drop half r))
        | inl odd ↦
            let e : n - half ≡ suc half = omega (arith, (==_iff (n % 2) 1).0 odd) in
            let at : n - 1 - half ≡ half = omega (arith, e) in
            let byte : get_or forward found.1.0 0 % 256 ≡ get_or r half 0 =
              (packed_at n rows bwt h small found.1.0 last_in).1
              ∙ last-row n rows bwt h found.1.0 last_in
              ∙ middle (omega (arith, e))
              ∙ ap (λ k. get_or r k 0) at in
            rw odd (
              cc (
                front,
                ends,
                e,
                byte,
                sym (drop_at half r (omega (arith, size, e))),
                take-append-drop half r,
              ))
      ]
