-- ===== src/Entropy/Order0/Lawful.antt =====
-- The descent of `decode_symbol`, and that the order-0 model is fit to code with.
use aether_arch.Base.{
  ℕ, zero, suc, ◌+◌, ◌-◌, ◌*◌, ◌%◌, ◌^◌, ◌≤◌, ◌<◌, ◌≡◌, refl, sym, ap, ◌∙◌, List, [], ◌∷◌, get_or,
  leb, if◌then◌else◌, arith, Bool-cases, inl, inr, leb→le,
}
use mathlib.Core.Path.{subst}
use aether_arch.Entropy.{prob_total, IsLawful, table_decode, find_symbol}
use aether_arch.Entropy.Symbol.{find_symbol-Holds, table_interval, table_decode-query}
use aether_arch.Entropy.Order0.{
  Order0Model, Search, divisor, quantize_boundary, descend, decode_symbol, query_cdf, predict_cdf,
  order0,
}
use aether_arch.Entropy.Order0.LowBit.{low_bit-IsCandidate}
use aether_arch.Entropy.Order0.Sums.{prefix}
use aether_arch.Entropy.Order0.Model.{IsModel, fresh-IsModel, update-IsModel}
use aether_arch.Entropy.Order0.Boundaries.{
  boundary, boundary_first, boundary_last, boundary_small, quantize_boundary-boundary, cdf_entry,
  predict_cdf-IsCdf, query_cdf-predict_cdf,
}

module _ (m : Order0Model) (h : IsModel m) (freq : ℕ) where
  -- The search stands at a multiple of `width`, and `freq` lies in the `width` symbols from there.
  record IsAt (width : ℕ) (x : Search) : Type 0 where
    pub aligned : x.lo % width ≡ 0
    pub inside : x.lo + width ≤ 256
    pub cum_eq : x.cum ≡ prefix m.counts x.lo
    pub lo_eq : x.lo_value ≡ boundary m h x.lo
    pub hi_eq : x.hi_value ≡ boundary m h (x.lo + width)
    pub least : x.lo_value ≤ freq
    pub most : freq < x.hi_value

  abbrev halve_step : ℕ → Search → Search
  halve_step step x =
      let cand = x.lo + step in
      let cand_cum = x.cum + get_or m.fenwick (cand - 1) 0 in
      let mid_value = quantize_boundary (divisor m.total) cand_cum cand in
      if leb mid_value freq
      then record x { lo = cand; cum = cand_cum; lo_value = mid_value }
      else record x { hi_value = mid_value }

  halve_step-IsAt :
      (t : ℕ) (x : Search)
      → t < 8
      → 0 < 2 ^ t
      → IsAt (2 * 2 ^ t) x
      → IsAt (2 ^ t) (halve_step (2 ^ t) x)
  halve_step-IsAt t x lt some at_x =
      let found = low_bit-IsCandidate t x.lo lt (omega (arith, at_x.inside, some)) at_x.aligned in
      let cand = x.lo + 2 ^ t in
      let sums = h.tree.sums cand (omega (arith, some)) (omega (arith, at_x.inside)) in
      let back : cand - 2 ^ t ≡ x.lo = omega arith in
      let cum_eq : x.cum + get_or m.fenwick (cand - 1) 0 ≡ prefix m.counts cand =
        omega (arith, rw back at (rw (found.bit) at sums), at_x.cum_eq) in
      let mid_eq =
        quantize_boundary-boundary m h cand (x.cum + get_or m.fenwick (cand - 1) 0)
          (omega (arith, at_x.inside)) cum_eq in
      let wide : cand + 2 ^ t ≡ x.lo + 2 * 2 ^ t = omega arith in
      elim (Bool-cases (
        leb (quantize_boundary (divisor m.total) (x.cum + get_or m.fenwick (cand - 1) 0) cand)
          freq)) [
            | inl right ↦ rw right (record {
              aligned = found.upper;
              inside = omega (arith, at_x.inside);
              cum_eq = cum_eq;
              lo_eq = mid_eq;
              hi_eq = at_x.hi_eq ∙ ap (boundary m h) (sym wide);
              least = leb→le _ _ right;
              most = at_x.most;
            })
            | inr left ↦ rw left (record {
              aligned = found.lower;
              inside = omega (arith, at_x.inside, some);
              cum_eq = at_x.cum_eq;
              lo_eq = at_x.lo_eq;
              hi_eq = mid_eq;
              least = at_x.least;
              most = ground (arith, left);
            })
          ]

  abbrev halves : ℕ → List ℕ
  halves zero = []
  halves (suc t) = 2 ^ t ∷ halves t

  descend-IsAt :
      (t : ℕ) (x : Search)
      → t ≤ 8
      → IsAt (2 ^ t) x
      → IsAt 1 (descend (divisor m.total) m.fenwick freq (halves t) x)
  unfolding descend
  descend-IsAt zero x le at_x = at_x
  descend-IsAt (suc t) x le at_x =
      let double : 2 ^ suc t ≡ 2 * 2 ^ t = omega arith in
      descend-IsAt t (halve_step (2 ^ t) x) (omega arith)
        (halve_step-IsAt t x (omega arith) (power_positive t) (subst (λ w. IsAt w x) double at_x))
    where
      power_positive : (t : ℕ) → 0 < 2 ^ t
      power_positive zero = omega arith
      power_positive (suc t) =
          let double : 2 ^ suc t ≡ 2 * 2 ^ t = omega arith in
          omega (arith, double, power_positive t)

  abbrev first_search : Search
  first_search = record { lo = 0; cum = 0; lo_value = 0; hi_value = prob_total }

  first_search-IsAt : freq < prob_total → IsAt (2 ^ 8) first_search
  first_search-IsAt small = record {
    aligned = refl;
    inside = omega arith;
    cum_eq = unfold prefix in refl;
    lo_eq = sym (boundary_first m h);
    hi_eq = sym (boundary_last m h);
    least = omega arith;
    most = small;
  }

  abbrev last_search : Search
  last_search = descend (divisor m.total) m.fenwick freq (halves 8) first_search

  -- In a state that the invariant holds of, and for a frequency below the total, the descent
  -- through the tree returns the symbol and the interval that a search of the whole table
  -- returns.
  pub decode_symbol-predict_cdf :
      freq < prob_total → decode_symbol m freq ≡ table_decode (predict_cdf m) freq
  unfolding decode_symbol table_decode
  decode_symbol-predict_cdf small =
      let found = descend-IsAt 8 first_search (omega arith) (first_search-IsAt small) in
      let i = last_search.lo in
      let lo = cdf_entry m h i (omega (arith, found.inside)) in
      let hi = cdf_entry m h (i + 1) (omega (arith, found.inside)) in
      let same : find_symbol (predict_cdf m) freq ≡ i =
        (find_symbol-Holds (predict_cdf m) (predict_cdf-IsCdf m h) freq small).1 i
          (omega (arith, found.inside))
          (
            omega (arith, lo, found.lo_eq, found.least),
            omega (arith, hi, found.hi_eq, found.most),
          ) in
      let small_lo = boundary_small m h i (omega (arith, found.inside)) in
      let small_hi = boundary_small m h (i + 1) (omega (arith, found.inside)) in
      let e0 : i % 256 ≡ i = omega (arith, found.inside) in
      let e1 : last_search.lo_value % 2 ^ 16 ≡ get_or (predict_cdf m) i 0 =
        omega (arith, lo, found.lo_eq, small_lo) in
      let e2 : last_search.hi_value % 2 ^ 16 ≡ get_or (predict_cdf m) (i + 1) 0 =
        omega (arith, hi, found.hi_eq, small_hi) in
      rw same (rw (e0, e1, e2))

query_interval :
    (m : Order0Model) (b : ℕ)
    → b < 256
    → IsModel m
    → ((query_cdf m b).0 < (query_cdf m b).1) × ((query_cdf m b).1 ≤ prob_total)
query_interval m b small h =
    rw (query_cdf-predict_cdf m h b small)
      (table_interval (predict_cdf m) (predict_cdf-IsCdf m h) b small)

decode_query :
    (m : Order0Model) (b freq : ℕ)
    → b < 256
    → IsModel m
    → (query_cdf m b).0 ≤ freq
    → freq < (query_cdf m b).1
    → decode_symbol m freq ≡ (b, query_cdf m b)
decode_query m b freq small h least most =
    let same = query_cdf-predict_cdf m h b small in
    let below : freq < prob_total = omega (arith, (query_interval m b small h).1, most) in
    decode_symbol-predict_cdf m h freq below
    ∙ table_decode-query (predict_cdf m) (predict_cdf-IsCdf m h) b freq small (rw same at least)
        (rw same at most)
    ∙ ap (λ t. (b, t)) (sym same)

-- The order-0 model is lawful as a predictor: a reset brings it to a state of its invariant and
-- an update keeps it there, and in such a state each byte has an interval of its own within the
-- total, and any frequency in it is decoded to that byte and that interval.
pub order0-IsLawful : IsLawful order0 IsModel
order0-IsLawful = record {
  reset-Good = λ m. fresh-IsModel;
  update-Good = λ m b small h. update-IsModel m b small h;
  interval = λ m b small h. query_interval m b small h;
  decode =
      λ m b freq small h least most. ap (λ t. (t, m)) (decode_query m b freq small h least most);
}
