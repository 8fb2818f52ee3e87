-- ===== src/Coding/BytePlane/Coder.antt =====
-- aether-core/src/coding/byteplane_preprocess.rs: the coding of a plane by the range coder, with a
-- predictor of its own in its first state.
use aether_arch.Base.{ℕ, ◌≤◌, ◌≡◌, ap, List, length, IsBytes}
use aether_arch.Errors.{Result, ok, err}
use aether_arch.Entropy.{Predictor, IsLawful}
use aether_arch.Entropy.Order0.{order0, fresh}
use aether_arch.Entropy.Order0.Lawful.{order0-IsLawful}
use aether_arch.Coding.Rans.Blocks.{encode_block, decode_block}
use aether_arch.Coding.Rans.RoundTrip.{decode_block-encode_block}
use aether_arch.Coding.BytePlane.{PlaneCoder, max_decompressed_block_size}

abbrev without_state {ℓ} : {S : Type ℓ} → Result (List ℕ × S) → Result (List ℕ)
without_state (ok found) = ok found.0
without_state (err e) = err e

without_state_inv {ℓ} :
    {S : Type ℓ} (m : Result (List ℕ × S)) (coded : List ℕ)
    → without_state m ≡ ok coded
    → (s : S) × (m ≡ ok (coded, s))
without_state_inv (ok (bytes, s)) coded e = (s, ap (λ t. ok (t, s)) (cc e))
without_state_inv (err e) coded h = absurd (cc h)

module _ {S : Type 0} (p : Predictor S) {Good : S → Type 0} (lawful : IsLawful p Good)
    (fresh : S) where
  pub plane_round_trip :
      (plane coded : List ℕ)
      → IsBytes plane
      → length plane ≤ max_decompressed_block_size
      → without_state (encode_block p plane fresh) ≡ ok coded
      → without_state (decode_block p coded (length plane) fresh) ≡ ok plane
  plane_round_trip plane coded h small done =
      let (s, encoded) = without_state_inv (encode_block p plane fresh) coded done in
      ap without_state (decode_block-encode_block p lawful plane fresh s coded h small encoded)

  -- `RansCoder` with a predictor in its first state, for a predictor that is lawful.
  abbrev pub range_coder : PlaneCoder
  range_coder = record {
    encode = λ plane. without_state (encode_block p plane fresh);
    decode = λ coded n. without_state (decode_block p coded n fresh);
    decode-encode = plane_round_trip;
  }

-- `RansCoder` with `Order0Model::new()`, as both sides of a byte-plane block use it.
abbrev pub order0_coder : PlaneCoder
order0_coder = range_coder order0 order0-IsLawful fresh
