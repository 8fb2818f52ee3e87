-- ===== src/Entropy/Symbol.antt =====
-- The symbol that a cumulative frequency stands for.
use aether_arch.Base.{
  ℕ, zero, suc, ◌+◌, ◌-◌, ◌*◌, ◌/◌, ◌^◌, ◌≤◌, ◌<◌, ◌≡◌, refl, ap, List, get_or, ltb, leb, arith,
  Bool-cases, inl, inr, ltb→lt, leb→le, ◌⊎◌,
}
use mathlib.Core.Path.{subst}
use native.Mathlib.Decide.{dec_lt}
use aether_arch.Entropy.{prob_total, search_symbol, find_symbol, table_query, table_decode, IsCdf}

module _ (cdf : List ℕ) (h : IsCdf cdf) where
  abbrev pub at : ℕ → ℕ
  at i = get_or cdf i 0

  ascending : (d i : ℕ) → i + d ≤ 256 → at i + d ≤ at (i + d)
  ascending zero i le = let e : i + 0 ≡ i = omega arith in rw e (omega arith)
  ascending (suc d) i le =
      let e : i + suc d ≡ i + d + 1 = omega arith in
      rw e (omega (arith, ascending d i (omega arith), h.ascends (i + d) (omega arith)))

  increasing : (i j : ℕ) → i < j → j ≤ 256 → at i < at j
  increasing i j lt le =
      let e : i + (j - i) ≡ j = omega arith in
      omega (arith, rw e at (ascending (j - i) i (omega arith)))

  -- The interval of a symbol, and that it is the only one with the frequency in it.
  abbrev pub Holds : ℕ → ℕ → Type 0
  Holds freq i = (at i ≤ freq) × (freq < at (i + 1))

  Holds-unique : (freq i j : ℕ) → i < 256 → j < 256 → Holds freq i → Holds freq j → i ≡ j
  Holds-unique freq i j hi hj (p, q) (p', q') = elim (dec_lt i j) [
    | yes lt ↦ absurd (below freq i j lt hj q p')
    | no ge ↦ elim (dec_lt j i) [
      | yes lt ↦ absurd (below freq j i lt hi q' p)
      | no ge' ↦ omega arith
    ]
  ]
    where
      below : (freq i j : ℕ) → i < j → j < 256 → freq < at (i + 1) → at j ≤ freq → ⊥
      below freq i j lt small q p = elim (dec_lt (i + 1) j) [
        | yes further ↦ omega (arith, increasing (i + 1) j further (omega arith), p, q)
        | no ends ↦ let e : i + 1 ≡ j = omega arith in omega (arith, ap at e, p, q)
      ]

  abbrev Bounds : ℕ → ℕ → Type 0
  Bounds freq hi = (hi ≡ 256) ⊎ (freq < at (hi + 1))

  search_end :
      (freq lo : ℕ)
      → lo ≤ 256
      → freq < prob_total
      → at lo ≤ freq
      → Bounds freq lo
      → Holds freq lo × (lo < 256)
  search_end freq lo le small p (inl e) = absurd (omega (arith, ap at e, h.last, small, p))
  search_end freq lo le small p (inr q) = elim (dec_lt lo 256) [
    | yes lt ↦ ((p, q), lt)
    | no ge ↦ let e : lo ≡ 256 = omega arith in absurd (omega (arith, ap at e, h.last, small, p))
  ]

  search_lem :
      (rounds freq lo hi : ℕ)
      → hi ≤ 256
      → lo ≤ hi
      → hi - lo < 2 ^ rounds
      → freq < prob_total
      → at lo ≤ freq
      → Bounds freq hi
      → Holds freq (search_symbol rounds cdf freq lo hi)
        × (search_symbol rounds cdf freq lo hi < 256)
  unfolding search_symbol
  search_lem zero freq lo hi le ord size small p q =
      let e : hi ≡ lo = omega arith in
      search_end freq lo (omega arith) small p (subst (Bounds freq) e q)
  search_lem (suc rounds) freq lo hi le ord size small p q = elim (Bool-cases (ltb lo hi)) [
    | inr end ↦
        let e : hi ≡ lo = ground arith in
        rw end (search_end freq lo (omega arith) small p (subst (Bounds freq) e q))
    | inl more ↦
        let mid = (lo + hi) / 2 in
        let lt : lo < hi = ltb→lt lo hi more in
        let half : hi - lo < 2 * 2 ^ rounds = omega (arith, size) in
        elim (Bool-cases (leb (get_or cdf (mid + 1) 0) freq)) [
          | inl right ↦
              rw (more, right)
                (search_lem rounds freq (mid + 1) hi le (omega arith) (omega arith) small
                  (leb→le _ _ right) q)
          | inr left ↦
              rw (more, left)
                (search_lem rounds freq lo mid (omega arith) (omega arith) (omega arith) small p
                  (inr (ground arith)))
        ]
  ]

  found :
      (freq : ℕ)
      → freq < prob_total
      → Holds freq (find_symbol cdf freq) × (find_symbol cdf freq < 256)
  unfolding find_symbol
  found freq small = elim (Bool-cases (ltb freq (get_or cdf 1 0))) [
    | inl zeroth ↦ rw zeroth ((omega (arith, h.first), ltb→lt _ _ zeroth), omega arith)
    | inr above ↦ elim (Bool-cases (ltb freq (get_or cdf 2 0))) [
      | inl one ↦ rw (above, one) ((ground arith, ltb→lt _ _ one), omega arith)
      | inr more ↦
          rw (above, more)
            (search_lem 8 freq 2 256 (omega arith) (omega arith) (omega arith) small (ground arith)
              (inl refl))
    ]
  ]

  -- On a table and a frequency below the total, `find_symbol` returns the one symbol whose interval
  -- holds the frequency: what an exhaustive search would return.
  pub find_symbol-Holds :
      (freq : ℕ)
      → freq < prob_total
      → (Holds freq (find_symbol cdf freq) × (find_symbol cdf freq < 256))
        × ((i : ℕ) → i < 256 → Holds freq i → find_symbol cdf freq ≡ i)
  find_symbol-Holds freq small =
      let (held, small') = found freq small in
      (
        (held, small'),
        λ i hi other. Holds-unique freq (find_symbol cdf freq) i small' hi held other,
      )

  -- The default methods of the trait code and decode by the table.
  pub table_interval :
      (b : ℕ)
      → b < 256
      → ((table_query cdf b).0 < (table_query cdf b).1) × ((table_query cdf b).1 ≤ prob_total)
  unfolding table_query
  table_interval b small = (h.ascends b small, upper)
    where
      upper : at (b + 1) ≤ prob_total
      upper = elim (dec_lt (b + 1) 256) [
        | yes lt ↦ omega (arith, increasing (b + 1) 256 lt (omega arith), h.last)
        | no ge ↦ let e : b + 1 ≡ 256 = omega arith in omega (arith, ap at e, h.last)
      ]

  pub table_decode-query :
      (b freq : ℕ)
      → b < 256
      → (table_query cdf b).0 ≤ freq
      → freq < (table_query cdf b).1
      → table_decode cdf freq ≡ (b, table_query cdf b)
  unfolding table_query table_decode
  table_decode-query b freq small p q =
      let below : freq < prob_total = omega (arith, (table_interval b small).1, q) in
      rw ((find_symbol-Holds freq below).1 b small (p, q))
