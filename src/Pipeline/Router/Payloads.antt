-- ===== src/Pipeline/Router/Payloads.antt =====
-- What the router relies on, and the fields of its payloads as its decoder reads them.
use aether_arch.Base.{
  ℕ, ◌^◌, ◌≤◌, ◌<◌, ◌≡◌, refl, sym, ap, ◌∙◌, true, List, ◌++◌, length, drop, take-append,
  drop-append, drop-drop, length-append, to_le, length-to_le, from_le-to_le, leb, Option, some,
  arith, IsBytes, inl, inr,
}
use aether_arch.Errors.{ok, ◌>>=◌}
use aether_arch.Entropy.{IsLawful}
use aether_arch.Coding.Rans.Blocks.{decode_block}
use aether_arch.Coding.Rans.Reset.{ResetsAlike}
use aether_arch.Coding.Bwt.{max_bwt_input_size, bwt_mtf_decode_parts}
use aether_arch.Coding.Bwt.Rotations.{IsSuffixArray}
use aether_arch.Coding.ZeroRun.Plain.{rle_decode-rle_encode}
use aether_arch.Coding.ZeroRun.Escaped.{rle_decode_escaped-rle_encode_escaped}
use aether_arch.Coding.ZeroRun.Output.{rle_encode-IsBytes, rle_encode_escaped-IsBytes}
use aether_arch.Coding.BytePlane.{max_decompressed_block_size}
use aether_arch.Pipeline.Zstd.{IsZstd}
use aether_arch.Pipeline.Router.{run_lengths, bwt_payload, Setting}
use aether_arch.Pipeline.Router.Decode.{decode_runs, decode_bwt, decode_sized}

-- What the router relies on: a lawful predictor whose reset forgets what it has coded, up to what the
-- next symbol rewrites, a zstd crate that decodes what it encodes, and suffix arrays.
pub record IsSound {S : Type 0} (r : Setting S) (Good : S → Type 0) (Alike : S → S → Type 0)
    : Type 0 where
  pub lawful : IsLawful r.predictor Good
  pub alike : ResetsAlike r.predictor Alike
  pub crate : IsZstd r.zstd_crate
  pub sorted :
      (text sa : List ℕ) → r.sais (text ++ text) ≡ some sa → IsSuffixArray (text ++ text) sa

-- The runs of ranks are bytes, not many more than the ranks, and are decoded to them.
pub runs_lem :
    {S : Type 0} (r : Setting S) (ranks : List ℕ)
    → IsBytes ranks
    → length ranks ≤ max_bwt_input_size
    → IsBytes (run_lengths ranks).0
      × (length (run_lengths ranks).0 ≤ max_decompressed_block_size)
      × ((run_lengths ranks).1 ≤ 2)
      × (decode_runs r (run_lengths ranks).1 (run_lengths ranks).0 (length ranks) ≡ ok ranks)
unfolding decode_runs
runs_lem r ranks h small = elim (rle_decode-rle_encode ranks (omega (arith, small))) [
  | inl (has, e) ↦
      let (bytes, size) = rle_encode_escaped-IsBytes ranks in
      rw (run_lengths, e)
        (
          bytes,
          omega (arith, size, small),
          omega arith,
          rle_decode_escaped-rle_encode_escaped ranks h (omega (arith, small)),
        )
  | inr (ys, absent, e, back) ↦
      let (bytes, size) = rle_encode-IsBytes ranks ys h e in
      rw (run_lengths, e) (bytes, omega (arith, size, small), omega arith, back)
]

module _ {S : Type 0} (r : Setting S) (baseline : Option (List ℕ)) where
  -- The fields of a payload with ranks.
  pub decode_bwt-bwt_payload :
      (flags primary n size : ℕ) (coded : List ℕ)
      → flags ≤ 2
      → primary < 2 ^ 32
      → n ≤ max_decompressed_block_size
      → decode_bwt r (bwt_payload flags primary n coded) size baseline ≡ (
          decode_block r.predictor coded n (r.coding_predictor baseline) >>= λ decoded.
          decode_runs r flags decoded.0 size >>= λ ranks. bwt_mtf_decode_parts primary ranks size)
  unfolding decode_bwt
  decode_bwt-bwt_payload flags primary n size coded flag_ok index_ok n_ok =
      let word1 = length-to_le 4 primary in
      let word2 = length-to_le 4 n in
      let rest = to_le 4 n ++ coded in
      let at1 = take-append 4 (to_le 4 primary) rest word1 in
      let at5 = drop-append 4 (to_le 4 primary) rest word1 in
      let take5 = take-append 4 (to_le 4 n) coded word2 in
      let at9 : drop 8 (to_le 4 primary ++ rest) ≡ coded =
        sym (drop-drop 4 4 (to_le 4 primary ++ rest))
        ∙ ap (drop 4) at5
        ∙ drop-append 4 (to_le 4 n) coded word2 in
      let long : leb 9 (length (bwt_payload flags primary n coded)) ≡ true = ground (
        arith,
        length-append (to_le 4 primary) rest,
        length-append (to_le 4 n) coded,
        word1,
        word2,
      ) in
      let flag_test : leb flags 2 ≡ true = ground (arith, flag_ok) in
      let n_test : leb n max_decompressed_block_size ≡ true = ground (arith, n_ok) in
      rw
        (
          long,
          flag_test,
          at1,
          at5,
          take5,
          at9,
          from_le-to_le 4 primary index_ok,
          from_le-to_le 4 n (omega (arith, n_ok)),
          n_test,
        )
        refl

  pub decode_sized-length :
      (n : ℕ) (coded : List ℕ)
      → n ≤ max_decompressed_block_size
      → decode_sized r (to_le 4 n ++ coded) baseline ≡ (
          decode_block r.predictor coded n (r.coding_predictor baseline) >>= λ decoded.
          ok decoded.0)
  unfolding decode_sized
  decode_sized-length n coded n_ok =
      let word = length-to_le 4 n in
      let long : leb 4 (length (to_le 4 n ++ coded)) ≡ true =
        ground (arith, length-append (to_le 4 n) coded, word) in
      let n_test : leb n max_decompressed_block_size ≡ true = ground (arith, n_ok) in
      rw
        (
          long,
          take-append 4 (to_le 4 n) coded word,
          drop-append 4 (to_le 4 n) coded word,
          from_le-to_le 4 n (omega (arith, n_ok)),
          n_test,
        )
        refl
