-- ===== src/Entropy/Order0/Boundaries.antt =====
-- The table of the order-0 model, and the single intervals that `query_cdf` computes.
use aether_arch.Base.{
  ℕ, zero, suc, ◌+◌, ◌-◌, ◌*◌, ◌/◌, ◌%◌, ◌^◌, ◌≤◌, ◌<◌, ◌≡◌, refl, sym, ap, ◌∙◌, List, [], ◌∷◌,
  length, get_or, ◌==◌, if◌then◌else◌, arith, Bool-cases, inl, inr, ==_iff,
}
use native.Mathlib.Nat.{
  div-lt_iff_lt-mul, div-add-mod, mod-lt, div-le_of_le-mul, div-eq_of_eq-mul_right,
}
use native.Mathlib.Decide.{dec_lt}
use aether_arch.Entropy.{prob_total, IsCdf, table_query}
use aether_arch.Entropy.Order0.{
  Order0Model, ExactDivisor, divisor, quantize_boundary, cdf_loop, predict_cdf, query_cdf,
  fenwick_prefix,
}
use aether_arch.Entropy.Order0.Divisor.{div-divisor}
use aether_arch.Entropy.Order0.Sums.{prefix, prefix-suc, prefix_le}
use aether_arch.Entropy.Order0.Fenwick.{fenwick_prefix-prefix}
use aether_arch.Entropy.Order0.Model.{IsModel}

cdf_loop_entry :
    (d : ExactDivisor) (cum i : ℕ) (counts : List ℕ) (k : ℕ)
    → k < length counts
    → get_or (cdf_loop d cum i counts) k 0
      ≡ quantize_boundary d (cum + prefix counts k) (i + k) % 2 ^ 16
unfolding cdf_loop
cdf_loop_entry d cum i [] k h = absurd (omega arith)
cdf_loop_entry d cum i (c ∷ counts) zero h =
    let e : cum + prefix (c ∷ counts) 0 ≡ cum = unfold prefix in omega arith in
    let e' : i + 0 ≡ i = omega arith in rw (e, e')
cdf_loop_entry d cum i (c ∷ counts) (suc k) h =
    let e : cum + prefix (c ∷ counts) (suc k) ≡ cum + c + prefix counts k =
      unfold prefix in omega arith in
    let e' : i + suc k ≡ i + 1 + k = omega arith in
    rw (e, e') (cdf_loop_entry d (cum + c) (i + 1) counts k (omega arith))

cdf_loop_last :
    (d : ExactDivisor) (cum i : ℕ) (counts : List ℕ)
    → get_or (cdf_loop d cum i counts) (length counts) 0 ≡ prob_total
unfolding cdf_loop
cdf_loop_last d cum i [] = refl
cdf_loop_last d cum i (c ∷ counts) = cdf_loop_last d (cum + c) (i + 1) counts

length-cdf_loop :
    (d : ExactDivisor) (cum i : ℕ) (counts : List ℕ)
    → length (cdf_loop d cum i counts) ≡ suc (length counts)
unfolding cdf_loop
length-cdf_loop d cum i [] = refl
length-cdf_loop d cum i (c ∷ counts) = ap suc (length-cdf_loop d (cum + c) (i + 1) counts)

quotient_le : (a b t : ℕ) → 0 < t → a ≤ b → a / t ≤ b / t
quotient_le a b t pos le =
    let bound : a < (b / t + 1) * t = omega (arith, div-add-mod b t, mod-lt b pos) in
    omega (arith, (div-lt_iff_lt-mul {k = t} {x = a} {y = b / t + 1} pos).1 bound)

module _ (m : Order0Model) (h : IsModel m) where
  -- The exact boundary below symbol `i`.
  abbrev pub boundary : ℕ → ℕ
  boundary i = i + prefix m.counts i * 32512 / m.total

  pub prefix_small : (i : ℕ) → i ≤ 256 → prefix m.counts i ≤ m.total
  prefix_small i le =
      let e : i + (256 - i) ≡ 256 = omega arith in
      omega (arith, prefix_le m.counts i (256 - i), ap (prefix m.counts) e, h.adds_up)

  total_positive : 0 < m.total
  total_positive =
      omega (arith, prefix-suc m.counts 0, prefix_small 1 (omega arith), h.positive 0 (omega arith))

  share : (i : ℕ) → i ≤ 256 → prefix m.counts i * 32512 / m.total ≤ 32512
  share i le = div-le_of_le-mul m.total (omega (arith, prefix_small i le))

  pub boundary_small : (i : ℕ) → i ≤ 256 → boundary i ≤ prob_total
  boundary_small i le = omega (arith, share i le)

  pub boundary_first : boundary 0 ≡ 0
  boundary_first =
      let e : prefix m.counts 0 ≡ 0 = unfold prefix in refl in
      omega (
        arith,
        ap (λ t. t * 32512 / m.total) e,
        share 0 (omega arith),
        div-eq_of_eq-mul_right {n = m.total} {m = 0} {k = 0} total_positive (omega arith),
      )

  pub boundary_last : boundary 256 ≡ prob_total
  boundary_last =
      let e : prefix m.counts 256 * 32512 ≡ m.total * 32512 = ap (λ t. t * 32512) h.adds_up in
      omega (arith, div-eq_of_eq-mul_right total_positive e)

  boundary_ascends : (i : ℕ) → i < 256 → boundary i < boundary (i + 1)
  boundary_ascends i lt = omega (
    arith,
    quotient_le (prefix m.counts i * 32512) (prefix m.counts (i + 1) * 32512) m.total total_positive
        (omega (arith, prefix_le m.counts i 1)),
  )

  -- The quantizer, at the sum of the first counts.
  pub quantize_boundary-boundary :
      (i cum : ℕ)
      → i ≤ 256
      → cum ≡ prefix m.counts i
      → quantize_boundary (divisor m.total) cum i ≡ boundary i
  quantize_boundary-boundary i cum le e =
      unfold quantize_boundary in
      let exact =
        div-divisor m.total (cum * 32512) total_positive (omega (arith, e, prefix_small i le)) in
      let e' : cum * 32512 / m.total ≡ prefix m.counts i * 32512 / m.total =
        ap (λ t. t * 32512 / m.total) e in
      omega (arith, exact, e', share i le)

  pub cdf_entry : (i : ℕ) → i ≤ 256 → get_or (predict_cdf m) i 0 ≡ boundary i
  unfolding predict_cdf
  cdf_entry i le = elim (dec_lt i 256) [
    | yes lt ↦
        let entry = cdf_loop_entry (divisor m.total) 0 0 m.counts i (omega (arith, h.full)) in
        let e : 0 + i ≡ i = omega arith in
        let exact = quantize_boundary-boundary i (0 + prefix m.counts i) le (omega arith) in
        omega (arith, rw e at entry, exact, boundary_small i le)
    | no ge ↦
        let e : i ≡ length m.counts = omega (arith, h.full) in
        let e' : i ≡ 256 = omega arith in
        rw e (
          cdf_loop_last (divisor m.total) 0 0 m.counts
          ∙ sym boundary_last
          ∙ ap boundary (sym h.full))
  ]

  -- The table of a model is a table that the range coder can code by.
  pub predict_cdf-IsCdf : IsCdf (predict_cdf m)
  predict_cdf-IsCdf = record {
    full = unfold predict_cdf in length-cdf_loop (divisor m.total) 0 0 m.counts ∙ ap suc h.full;
    first = cdf_entry 0 (omega arith) ∙ boundary_first;
    last = cdf_entry 256 (omega arith) ∙ boundary_last;
    ascends = λ i lt.
        omega (
          arith,
          cdf_entry i (omega arith),
          cdf_entry (i + 1) (omega arith),
          boundary_ascends i lt,
        );
  }

  -- `query_cdf` computes the two entries of the table that a byte stands between.
  pub query_cdf-predict_cdf : (b : ℕ) → b < 256 → query_cdf m b ≡ table_query (predict_cdf m) b
  query_cdf-predict_cdf b small =
      unfold query_cdf table_query in
      let entry = cdf_entry b (omega arith) in
      let next = cdf_entry (b + 1) (omega arith) in
      let cum = fenwick_prefix-prefix m.counts m.fenwick h.tree b (omega arith) in
      let lo = quantize_boundary-boundary b (fenwick_prefix m.fenwick b) (omega arith) cum in
      let e : b + 1 ≡ suc b = omega arith in
      let more = rw (sym e) at (prefix-suc m.counts b) in
      let hi =
        quantize_boundary-boundary (b + 1) (fenwick_prefix m.fenwick b + get_or m.counts b 0)
          (omega arith) (omega (arith, cum, more)) in
      let lo_bound = boundary_small b (omega arith) in
      let hi_bound = boundary_small (b + 1) (omega arith) in
      let first : quantize_boundary (divisor m.total) (fenwick_prefix m.fenwick b) b % 2 ^ 16
          ≡ get_or (predict_cdf m) b 0 =
        omega (arith, entry, lo, lo_bound) in
      let second : (if b == 255
            then prob_total % 2 ^ 16
            else quantize_boundary (divisor m.total)
                (fenwick_prefix m.fenwick b + get_or m.counts b 0) (b + 1)
              % 2 ^ 16)
          ≡ get_or (predict_cdf m) (b + 1) 0 =
        elim (Bool-cases (b == 255)) [
          | inl final ↦
              let e255 : b + 1 ≡ 256 = omega (arith, (==_iff b 255).0 final) in
              rw final (omega (arith, next, ap boundary e255, boundary_last))
          | inr inner ↦ rw inner (omega (arith, next, hi, hi_bound))
        ] in
      rw (first, second)
