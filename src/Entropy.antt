-- ===== src/Entropy.antt =====
-- aether-core/src/entropy/traits.rs: what the range coder uses of a predictor, the trait's default
-- methods, and the laws that make a predictor fit to code with.
mod Tests
pub mod Symbol
pub mod Order0
use aether_arch.Base.{
  ℕ, suc, ◌+◌, ◌-◌, ◌/◌, ◌≤◌, ◌<◌, ◌≡◌, List, get_or, ltb, leb, if◌then◌else◌, zero, length,
}

-- A `&mut self` method returns the predictor's state behind its result.
pub record Predictor (S : Type 0) : Type 0 where
  pub reset : S → S
  pub query_cdf : S → ℕ → (ℕ × ℕ) × S
  pub decode_symbol : S → ℕ → (ℕ × (ℕ × ℕ)) × S
  pub update : S → ℕ → S

abbrev pub prob_total : ℕ
prob_total = 32768

-- In every state that `Good` holds of, a byte has an interval of its own, any frequency in it is
-- decoded to the byte and the interval, and both sides leave the predictor in the same state.
pub record IsLawful {S : Type 0} (p : Predictor S) (Good : S → Type 0) : Type 0 where
  pub reset-Good : (s : S) → Good (p.reset s)
  pub update-Good : (s : S) (b : ℕ) → b < 256 → Good s → Good (p.update (p.query_cdf s b).1 b)
  pub interval :
      (s : S) (b : ℕ)
      → b < 256
      → Good s
      → ((p.query_cdf s b).0.0 < (p.query_cdf s b).0.1) × ((p.query_cdf s b).0.1 ≤ prob_total)
  pub decode :
      (s : S) (b freq : ℕ)
      → b < 256
      → Good s
      → (p.query_cdf s b).0.0 ≤ freq
      → freq < (p.query_cdf s b).0.1
      → p.decode_symbol s freq ≡ ((b, (p.query_cdf s b).0), (p.query_cdf s b).1)

-- The binary search of `find_symbol` with its rounds: each halves `hi - lo`, which is 254 at most.
unfoldable pub search_symbol : ℕ → List ℕ → ℕ → ℕ → ℕ → ℕ
search_symbol zero cdf freq lo hi = lo
search_symbol (suc rounds) cdf freq lo hi =
    let mid = (lo + hi) / 2 in
    let right = leb (get_or cdf (mid + 1) 0) freq in
    let rest =
      search_symbol rounds cdf freq (if right then mid + 1 else lo) (if right then hi else mid) in
    if ltb lo hi then rest else lo

unfoldable pub find_symbol : List ℕ → ℕ → ℕ
unfolding search_symbol
find_symbol cdf freq =
    if ltb freq (get_or cdf 1 0)
    then 0
    else if ltb freq (get_or cdf 2 0)
    then 1
    else search_symbol 8 cdf freq 2 256

-- The default `query_cdf` and `decode_symbol`, of a table that `predict_cdf` makes.
unfoldable pub table_query : List ℕ → ℕ → ℕ × ℕ
table_query cdf byte = (get_or cdf byte 0, get_or cdf (byte + 1) 0)

unfoldable pub table_decode : List ℕ → ℕ → ℕ × (ℕ × ℕ)
unfolding find_symbol
table_decode cdf freq =
    let symbol = find_symbol cdf freq in (symbol, (get_or cdf symbol 0, get_or cdf (symbol + 1) 0))

-- A table with 257 entries from 0 to the total, each above the one before.
pub record IsCdf (cdf : List ℕ) : Type 0 where
  pub full : length cdf ≡ 257
  pub first : get_or cdf 0 0 ≡ 0
  pub last : get_or cdf 256 0 ≡ prob_total
  pub ascends : (i : ℕ) → i < 256 → get_or cdf i 0 < get_or cdf (i + 1) 0
