-- ===== src/Pipeline/Router/Encode.antt =====
-- aether-core/src/pipeline/router.rs: the trials, and compress_chunk_with_baseline.
-- A scratch predictor goes from trial to trial. Behind an encoding that fails it has the state before it:
-- the next trial resets it.
use aether_arch.Base.{
  ℕ, Bool, true, false, ◌&&◌, ◌||◌, List, ◌++◌, length, to_le, ltb, leb, if◌then◌else◌, Option,
  none, some,
}
use aether_arch.Errors.{Result, ok, err, ◌>>=◌}
use aether_arch.Archive.Codes.{
  CompressionMethod, predictor_rans, zstd, store, lz77_predictor_rans, bwt_predictor_rans,
  byte_plane_predictor_rans, bcj_zstd, ContentType,
}
use aether_arch.Chunker.{ChunkRef}
use aether_arch.Coding.Rans.Blocks.{encode_block}
use aether_arch.Coding.Bcj.{encode_x86}
use aether_arch.Coding.Bwt.{bwt_mtf_encode_parts}
use aether_arch.Coding.Lz77.Encode.{lz77_encode}
use aether_arch.Coding.BytePlane.{BytePlaneWidth, two, four, byteplane_encode}
use aether_arch.Coding.BytePlane.Coder.{order0_coder}
use aether_arch.Pipeline.Zstd.{compress}
use aether_arch.Pipeline.Router.{
  RecommendedMethod, by_predictor, by_zstd, by_store, CompressionProfile, Entropy, CompressedChunk,
  recommend_method_for, is_numeric, is_text, is_executable, is_fast, Best, take_smaller,
  take_better, is_decisive, run_lengths, bwt_payload, Setting,
}

module _ {S : Type 0} (r : Setting S) where
  -- Byte planes of one width.
  unfoldable pub plane_with : BytePlaneWidth → List ℕ → Best → Best
  plane_with width bytes best = elim (byteplane_encode order0_coder r.entropies bytes width) [
    | none ↦ best
    | some payload ↦ take_better byte_plane_predictor_rans payload bytes best
  ]

  abbrev pub width_trial : BytePlaneWidth → List ℕ → Best → Best
  width_trial width bytes best =
      if r.is_byteplane_beneficial bytes width then plane_with width bytes best else best

  unfoldable pub numeric_trial : List ℕ → Best
  unfolding plane_with
  numeric_trial bytes = elim (r.detect_numeric_width bytes) [
    | none ↦ width_trial four bytes (width_trial two bytes none)
    | some width ↦ elim (byteplane_encode order0_coder r.entropies bytes width) [
      | none ↦ none
      | some payload ↦ take_smaller byte_plane_predictor_rans payload bytes none
    ]
  ]

  unfoldable pub bwt_trial : List ℕ → Entropy → Best → S → Best × S
  bwt_trial bytes entropy best s =
      if leb 8 (length bytes) && entropy.below_bwt_skip
      then elim (bwt_mtf_encode_parts r.sais bytes) [
        | err e ↦ (best, s)
        | ok (primary, ranks) ↦
            let coded = run_lengths ranks in
            elim (encode_block r.predictor coded.0 s) [
              | err e ↦ (best, s)
              | ok (rc_bytes, s') ↦ (
                take_smaller bwt_predictor_rans
                    (bwt_payload coded.1 primary (length coded.0) rc_bytes) bytes best,
                s',
              )
            ]
      ]
      else (best, s)

  unfoldable pub lz77_trial : List ℕ → Best → S → Best × S
  lz77_trial bytes best s = if is_decisive bytes best then (best, s) else elim (lz77_encode bytes) [
    | none ↦ (best, s)
    | some lz_bytes ↦ elim (encode_block r.predictor lz_bytes s) [
      | err e ↦ (best, s)
      | ok (rc_bytes, s') ↦
          (take_better lz77_predictor_rans (to_le 4 (length lz_bytes) ++ rc_bytes) bytes best, s')
    ]
  ]

  unfoldable pub plane_trial : List ℕ → ContentType → Best → Best
  unfolding plane_with
  plane_trial bytes content best =
      if is_numeric content || is_text content then best else elim (r.detect_numeric_width bytes) [
        | none ↦ best
        | some width ↦ plane_with width bytes best
      ]

  unfoldable pub plain_trial : List ℕ → Best → S → Best
  plain_trial bytes (some found) s = some found
  plain_trial bytes none s = elim (encode_block r.predictor bytes s) [
    | err e ↦ none
    | ok (rc_bytes, s') ↦ take_smaller predictor_rans rc_bytes bytes none
  ]

  unfoldable pub neural_trials : List ℕ → ContentType → Entropy → Option (List ℕ) → Best → Best
  unfolding bwt_trial lz77_trial plane_trial plain_trial
  neural_trials bytes content entropy baseline best =
      let by_bwt = bwt_trial bytes entropy best (r.coding_predictor baseline) in
      let by_lz77 = lz77_trial bytes by_bwt.0 by_bwt.1 in
      plain_trial bytes (plane_trial bytes content by_lz77.0) by_lz77.1

  unfoldable pub try_zstd_or_store : List ℕ → CompressionMethod × List ℕ
  unfolding compress
  try_zstd_or_store bytes = elim (compress r.zstd_crate bytes) [
    | err e ↦ (store, bytes)
    | ok coded ↦ if ltb (length coded) (length bytes) then (zstd, coded) else (store, bytes)
  ]

  abbrev pub is_found : Best → Bool
  is_found none = false
  is_found (some found) = true

  unfoldable pub predictor_trials : List ℕ → ContentType → Entropy → Option (List ℕ) → Best
  unfolding numeric_trial neural_trials
  predictor_trials bytes content entropy baseline =
      let best = if is_numeric content then numeric_trial bytes else none in
      if is_found best || (is_numeric content && entropy.above_high)
      then best
      else neural_trials bytes content entropy baseline best

  -- The method and the payload, and whether the predictor counts as synced.
  abbrev pub is_synced : CompressionMethod → Bool
  is_synced bwt_predictor_rans = false
  is_synced byte_plane_predictor_rans = false
  is_synced _ = true

  unfoldable pub by_recommended :
      RecommendedMethod
      → List ℕ
      → ContentType
      → Entropy
      → Option (List ℕ)
      → Result ((CompressionMethod × List ℕ) × Bool)
  unfolding predictor_trials try_zstd_or_store
  by_recommended by_predictor bytes content entropy baseline =
      elim (predictor_trials bytes content entropy baseline) [
        | none ↦ ok (try_zstd_or_store bytes, true)
        | some (method, payload) ↦ ok ((method, payload), is_synced method)
      ]
  by_recommended by_zstd bytes content entropy baseline = do
    coded ← compress r.zstd_crate bytes
    ok ((if leb (length bytes) (length coded) then (store, bytes) else (zstd, coded)), true)
  by_recommended by_store bytes content entropy baseline = ok ((store, bytes), true)

  unfoldable pub bcj_candidate : List ℕ → ContentType → Best
  unfolding compress
  bcj_candidate bytes content =
      if is_executable content
      then elim (encode_x86 bytes) [
        | none ↦ none
        | some transformed ↦ elim (compress r.zstd_crate transformed) [
          | err e ↦ none
          | ok coded ↦ take_smaller bcj_zstd coded bytes none
        ]
      ]
      else none

  -- The end of the fast route: the filtered chunk, where it is an executable and gets smaller.
  unfoldable pub fast_bcj :
      List ℕ → ContentType → CompressionMethod × List ℕ → Result (CompressionMethod × List ℕ)
  unfolding compress
  fast_bcj bytes content best =
      if is_executable content
      then elim (encode_x86 bytes) [
        | none ↦ ok best
        | some transformed ↦ compress r.zstd_crate transformed >>= λ coded.
            ok (if ltb (length coded) (length best.1) then (bcj_zstd, coded) else best)
      ]
      else ok best

  unfoldable pub fast_route : List ℕ → ContentType → Result (CompressionMethod × List ℕ)
  unfolding compress fast_bcj
  fast_route bytes content = do
    coded ← compress r.zstd_crate bytes
    fast_bcj bytes content
        (if ltb (length coded) (length bytes) then (zstd, coded) else (store, bytes))

  -- The filtered chunk instead of what the cascade found, where it is smaller.
  abbrev pub with_bcj :
      Best → (CompressionMethod × List ℕ) × Bool → (CompressionMethod × List ℕ) × Bool
  with_bcj none found = found
  with_bcj (some (method, payload)) found =
      if ltb (length payload) (length found.0.1) then ((method, payload), false) else found

  unfoldable pub compress_chunk_with_baseline :
      ChunkRef
      → Entropy
      → Option (List ℕ)
      → ContentType
      → CompressionProfile
      → Result CompressedChunk
  unfolding fast_route recommend_method_for bcj_candidate by_recommended
  compress_chunk_with_baseline chunk entropy baseline content profile = do
    let bytes = chunk.bytes
    found ←
        (if is_fast profile content
          then (fast_route bytes content >>= λ best. ok (best, false))
          else (by_recommended (recommend_method_for entropy content) bytes content entropy baseline
              >>= λ chosen. ok (with_bcj (bcj_candidate bytes content) chosen)))
    ok record {
      method = found.0.0;
      payload = found.0.1;
      original_size = chunk.len;
      blake3_hash = chunk.blake3_hash;
      predictor_synced = found.1;
    }
