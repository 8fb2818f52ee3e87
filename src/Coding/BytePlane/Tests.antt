-- ===== src/Coding/BytePlane/Tests.antt =====
-- A run of the byte planes with the range coder.
use aether_arch.Base.{
  ℕ, ◌≡◌, refl, List, [], ◌∷◌, zero, suc, Option, none, some, true, false, length,
}
use aether_arch.Errors.{ok}
use aether_arch.Coding.BytePlane.{Entropies, two, byteplane_encode, byteplane_decode}
use aether_arch.Coding.BytePlane.Coder.{order0_coder}
use aether_arch.Coding.Rans.Blocks.{encode_block, decode_block}
use aether_arch.Entropy.Order0.{fresh, query_cdf, decode_symbol, update}

abbrev pairs : ℕ → List ℕ
pairs zero = []
pairs (suc n) = 7 ∷ 9 ∷ pairs n

abbrev all_low : Entropies
all_low = record { is_low = λ plane. true; is_gain = λ plane differences. false }

abbrev payload_of : Option (List ℕ) → List ℕ
payload_of none = []
payload_of (some payload) = payload

abbrev coded : List ℕ
coded = payload_of (byteplane_encode order0_coder all_low (pairs 40) two)

-- Two planes of 25 bytes each, for 80 bytes.
order0_runs : length coded ≡ 60
unfolding byteplane_encode encode_block fresh query_cdf update
order0_runs = refl

order0_decodes : byteplane_decode order0_coder coded 80 ≡ ok (pairs 40)
unfolding byteplane_encode byteplane_decode encode_block decode_block fresh query_cdf decode_symbol
    update
order0_decodes = refl
