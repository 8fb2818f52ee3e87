-- ===== src/Entropy/Tests.antt =====
-- Runs of the order-0 model, and the theorems on predictors at concrete inputs.
use aether_arch.Base.{ℕ, ◌/◌, ◌<◌, ◌≡◌, refl, replicate, arith, some, All}
use aether_arch.Entropy.{find_symbol, table_decode}
use aether_arch.Entropy.Symbol.{find_symbol-Holds, Holds}
use aether_arch.Entropy.Order0.{
  Order0Model, divisor, div, fresh, update, query_cdf, decode_symbol, predict_cdf, fenwick_add,
  fenwick_prefix,
}
use aether_arch.Entropy.Order0.Divisor.{div-divisor}
use aether_arch.Entropy.Order0.Model.{IsModel, fresh-IsModel, update-IsModel}
use aether_arch.Entropy.Order0.Boundaries.{predict_cdf-IsCdf}
use aether_arch.Entropy.Order0.Lawful.{decode_symbol-predict_cdf}
use aether_arch.Entropy.Order0.State.{
  save_state, load_state, IsCount, load_state-save_state, load_state-IsModel,
}

abbrev seen : Order0Model
seen = update (update fresh 97) 97

fresh_seen : IsModel (update fresh 97)
fresh_seen = update-IsModel fresh 97 (omega arith) fresh-IsModel

seen-IsModel : IsModel seen
seen-IsModel = update-IsModel (update fresh 97) 97 (omega arith) fresh_seen

-- A byte that was seen twice has a wider interval.
query_runs : query_cdf seen 97 ≡ (12320, 12699)
unfolding query_cdf update fresh
query_runs = refl

decode_symbol_runs : decode_symbol seen 12500 ≡ (97, (12320, 12699))
unfolding decode_symbol update fresh
decode_symbol_runs = refl

prefix_runs : fenwick_prefix (fenwick_add 5 3 (replicate 256 0)) 200 ≡ 3
unfolding fenwick_prefix fenwick_add
prefix_runs = refl

div_runs : div (divisor 257) 1000000 ≡ 3891
unfolding div divisor
div_runs = refl

div-divisor_example : div (divisor 257) 1000000 ≡ 1000000 / 257
div-divisor_example = div-divisor 257 1000000 (omega arith) (omega arith)

find_symbol-Holds_example :
    (Holds
        (predict_cdf seen)
        (predict_cdf-IsCdf seen seen-IsModel)
        12500
        (find_symbol (predict_cdf seen) 12500)
      × (find_symbol (predict_cdf seen) 12500 < 256))
    × ((i : ℕ)
        → i < 256
        → Holds (predict_cdf seen) (predict_cdf-IsCdf seen seen-IsModel) 12500 i
        → find_symbol (predict_cdf seen) 12500 ≡ i)
find_symbol-Holds_example =
    find_symbol-Holds (predict_cdf seen) (predict_cdf-IsCdf seen seen-IsModel) 12500 (omega arith)

update-IsModel_example : IsModel (update seen 98)
update-IsModel_example = update-IsModel seen 98 (omega arith) seen-IsModel

decode_symbol-predict_cdf_example : decode_symbol seen 12500 ≡ table_decode (predict_cdf seen) 12500
decode_symbol-predict_cdf_example = decode_symbol-predict_cdf seen seen-IsModel 12500 (omega arith)

seen_counts : All IsCount seen.counts
unfolding update fresh
seen_counts = omega arith

saved_loads : load_state (save_state seen) ≡ some seen
saved_loads = load_state-save_state seen seen-IsModel seen_counts

load_state-save_state_example : load_state (save_state seen) ≡ some seen
load_state-save_state_example = load_state-save_state seen seen-IsModel seen_counts

load_state-IsModel_example : IsModel seen
load_state-IsModel_example = load_state-IsModel (save_state seen) seen saved_loads
