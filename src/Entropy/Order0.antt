-- ===== src/Entropy/Order0.antt =====
-- aether-core/src/entropy/order0.rs: the order-0 model, with its division by multiplication and its
-- Fenwick tree. Arrays are lists of 256 numbers, which the source's indices never leave.
use aether_arch.Base.{
  ℕ, zero, suc, ◌+◌, ◌-◌, ◌*◌, ◌/◌, ◌%◌, ◌^◌, Bool, true, false, ◌&&◌, List, [], ◌∷◌, ◌++◌,
  replicate, get_or, set, map, ltb, leb, ◌==◌, if◌then◌else◌,
}
pub mod LowBit
pub mod Divisor
pub mod Sums
pub mod Fenwick
pub mod Model
pub mod Boundaries
pub mod Lawful
pub mod State
use Prim.Native.Nat.{bit_and}
use aether_arch.Entropy.{prob_total, Predictor}

pub record ExactDivisor : Type 0 where
  pub total : ℕ
  pub magic : ℕ
  pub exact : Bool

abbrev pub max_magic_total : ℕ
max_magic_total = 2 ^ 20

-- The quotient of a total of 0, which stands behind the test, is never formed.
unfoldable pub divisor : ℕ → ExactDivisor
divisor total =
    let exact = ltb 0 total && leb total max_magic_total in
    record { total = total; magic = if exact then 2 ^ 56 / total + 1 else 0; exact = exact }

unfoldable pub div : ExactDivisor → ℕ → ℕ
div d n = if d.exact then n * d.magic / 2 ^ 56 else n / d.total

pub record Order0Model : Type 0 where
  pub counts : List ℕ
  pub fenwick : List ℕ
  pub total : ℕ

-- `xs[i] += delta`
abbrev pub add_at : List ℕ → ℕ → ℕ → List ℕ
add_at xs i delta = set xs i (get_or xs i 0 + delta)

-- `idx & idx.wrapping_neg()`
unfoldable pub low_bit : ℕ → ℕ
low_bit idx = bit_and idx ((2 ^ 64 - idx) % 2 ^ 64)

-- The loop of `rebuild_fenwick`, with the rounds that are left.
unfoldable pub rebuild_loop : ℕ → ℕ → List ℕ → List ℕ
unfolding low_bit
rebuild_loop zero idx fenwick = fenwick
rebuild_loop (suc rounds) idx fenwick =
    let parent = idx + low_bit idx in
    rebuild_loop rounds (idx + 1)
      (if leb parent 256 then add_at fenwick (parent - 1) (get_or fenwick (idx - 1) 0) else fenwick)

unfoldable pub rebuild_fenwick : List ℕ → List ℕ
unfolding rebuild_loop
rebuild_fenwick counts = rebuild_loop 256 1 counts

-- The loop of `fenwick_add`, with its rounds: `idx` grows.
unfoldable pub add_loop : ℕ → ℕ → ℕ → List ℕ → List ℕ
unfolding low_bit
add_loop zero idx delta fenwick = fenwick
add_loop (suc rounds) idx delta fenwick =
    let rest = add_loop rounds (idx + low_bit idx) delta (add_at fenwick (idx - 1) delta) in
    if leb idx 256 then rest else fenwick

unfoldable pub fenwick_add : ℕ → ℕ → List ℕ → List ℕ
unfolding add_loop
fenwick_add i delta fenwick = add_loop 256 (i + 1) delta fenwick

-- The loop of `fenwick_prefix`, with its rounds: `idx` falls.
unfoldable pub prefix_loop : ℕ → ℕ → ℕ → List ℕ → ℕ
prefix_loop zero idx sum fenwick = sum
prefix_loop (suc rounds) idx sum fenwick =
    let rest =
      prefix_loop rounds (bit_and idx (idx - 1)) (sum + get_or fenwick (idx - 1) 0) fenwick in
    if ltb 0 idx then rest else sum

unfoldable pub fenwick_prefix : List ℕ → ℕ → ℕ
unfolding prefix_loop
fenwick_prefix fenwick len = prefix_loop len len 0 fenwick

-- `as u32` and `as u16` are written out here and below.
unfoldable pub quantize_boundary : ExactDivisor → ℕ → ℕ → ℕ
unfolding div
quantize_boundary d cum symbol_index = symbol_index + div d (cum * (prob_total - 256)) % 2 ^ 32

unfoldable pub fresh : Order0Model
unfolding rebuild_fenwick
fresh = record {
  counts = replicate 256 1;
  fenwick = rebuild_fenwick (replicate 256 1);
  total = 256;
}

-- The loop of `predict_cdf` over the counts, with the entry for the total behind it.
unfoldable pub cdf_loop : ExactDivisor → ℕ → ℕ → List ℕ → List ℕ
unfolding quantize_boundary
cdf_loop d cum i [] = prob_total ∷ []
cdf_loop d cum i (c ∷ counts) =
    quantize_boundary d cum i % 2 ^ 16 ∷ cdf_loop d (cum + c) (i + 1) counts

unfoldable pub predict_cdf : Order0Model → List ℕ
unfolding divisor cdf_loop
predict_cdf m = cdf_loop (divisor m.total) 0 0 m.counts

-- `(*c >> 1).max(1)`
unfoldable pub halve : ℕ → ℕ
halve c = if ltb 1 (c / 2) then c / 2 else 1

abbrev pub sum : List ℕ → ℕ
sum [] = 0
sum (c ∷ counts) = c + sum counts

unfoldable pub rescale : Order0Model → Order0Model
unfolding halve rebuild_fenwick
rescale m =
    let counts = map halve m.counts in
    record { counts = counts; fenwick = rebuild_fenwick counts; total = sum counts }

unfoldable pub update : Order0Model → ℕ → Order0Model
unfolding fenwick_add rescale
update m byte =
    let counted = record m { counts = add_at m.counts byte 1; total = m.total + 1 } in
    if ltb 1000000 counted.total
    then rescale counted
    else record counted { fenwick = fenwick_add byte 1 m.fenwick }

unfoldable pub query_cdf : Order0Model → ℕ → ℕ × ℕ
unfolding divisor fenwick_prefix quantize_boundary
query_cdf m s =
    let d = divisor m.total in
    let cum = fenwick_prefix m.fenwick s in
    (
      quantize_boundary d cum s % 2 ^ 16,
      if s == 255
          then prob_total % 2 ^ 16
          else quantize_boundary d (cum + get_or m.counts s 0) (s + 1) % 2 ^ 16,
    )

-- What the loop of `decode_symbol` changes.
pub record Search : Type 0 where
  pub lo : ℕ
  pub cum : ℕ
  pub lo_value : ℕ
  pub hi_value : ℕ

unfoldable pub descend : ExactDivisor → List ℕ → ℕ → List ℕ → Search → Search
unfolding quantize_boundary
descend d fenwick freq [] x = x
descend d fenwick freq (step ∷ steps) x =
    let cand = x.lo + step in
    let cand_cum = x.cum + get_or fenwick (cand - 1) 0 in
    let mid_value = quantize_boundary d cand_cum cand in
    descend d fenwick freq steps (
      if leb mid_value freq
      then record x { lo = cand; cum = cand_cum; lo_value = mid_value }
      else record x { hi_value = mid_value })

unfoldable pub decode_symbol : Order0Model → ℕ → ℕ × (ℕ × ℕ)
unfolding divisor descend
decode_symbol m freq =
    let x =
      descend (divisor m.total) m.fenwick freq (128 ∷ 64 ∷ 32 ∷ 16 ∷ 8 ∷ 4 ∷ 2 ∷ 1 ∷ [])
        (record { lo = 0; cum = 0; lo_value = 0; hi_value = prob_total }) in
    (x.lo % 256, (x.lo_value % 2 ^ 16, x.hi_value % 2 ^ 16))

abbrev pub order0 : Predictor Order0Model
order0 = record {
  reset = λ m. fresh;
  query_cdf = λ m byte. (query_cdf m byte, m);
  decode_symbol = λ m freq. (decode_symbol m freq, m);
  update = λ m byte. update m byte;
}
