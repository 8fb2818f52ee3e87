-- ===== src/Pipeline/Router/Decode.antt =====
-- aether-core/src/pipeline/router.rs: decompress_chunk_with_baseline.
use aether_arch.Base.{
  ℕ, List, length, get_or, take, drop, from_le, leb, ◌==◌, if◌then◌else◌, Option, none, some,
}
use aether_arch.Errors.{Result, ok, err, decompression, resource_limit_exceeded, ◌>>=◌, ◌>>◌, guard}
use aether_arch.Archive.Codes.{
  CompressionMethod, predictor_rans, zstd, store, lz_predictor_rans, lz77_predictor_rans,
  bwt_predictor_rans, byte_plane_predictor_rans, bcj_zstd,
}
use aether_arch.Coding.Rans.Blocks.{decode_block}
use aether_arch.Coding.Bcj.{decode_x86}
use aether_arch.Coding.Bwt.{bwt_mtf_decode_parts}
use aether_arch.Coding.ZeroRun.{rle_decode, rle_decode_escaped}
use aether_arch.Coding.Lz77.Decode.{lz77_decode}
use aether_arch.Coding.BytePlane.{byteplane_decode, max_decompressed_block_size}
use aether_arch.Coding.BytePlane.Coder.{order0_coder}
use aether_arch.Pipeline.Zstd.{decompress}
use aether_arch.Pipeline.Router.{Setting}

module _ {S : Type 0} (r : Setting S) where
  unfoldable pub decode_runs : ℕ → List ℕ → ℕ → Result (List ℕ)
  decode_runs flags encode_data n =
      if flags == 2
      then rle_decode_escaped encode_data n
      else if flags == 1
      then rle_decode encode_data n
      else ok encode_data

  unfoldable pub decode_bwt : List ℕ → ℕ → Option (List ℕ) → Result (List ℕ)
  unfolding decode_runs
  decode_bwt coded n baseline = do
    guard (leb 9 (length coded)) decompression
    let flags = get_or coded 0 0
    guard (leb flags 2) decompression
    let primary_index = from_le (take 4 (drop 1 coded))
    let encoded_len = from_le (take 4 (drop 5 coded))
    guard (leb encoded_len max_decompressed_block_size) resource_limit_exceeded
    decoded ← decode_block r.predictor (drop 9 coded) encoded_len (r.coding_predictor baseline)
    ranks ← decode_runs flags decoded.0 n
    bwt_mtf_decode_parts primary_index ranks n

  -- The length in front, and the bytes that the range coder makes of the rest.
  unfoldable pub decode_sized : List ℕ → Option (List ℕ) → Result (List ℕ)
  decode_sized coded baseline = do
    guard (leb 4 (length coded)) decompression
    let lz_len = from_le (take 4 coded)
    guard (leb lz_len max_decompressed_block_size) resource_limit_exceeded
    decoded ← decode_block r.predictor (drop 4 coded) lz_len (r.coding_predictor baseline)
    ok decoded.0

  unfoldable pub decode_by : CompressionMethod → List ℕ → ℕ → Option (List ℕ) → Result (List ℕ)
  unfolding decode_bwt decode_sized decompress
  decode_by bcj_zstd coded n baseline = do
    original ← decompress r.zstd_crate coded n
    ok (decode_x86 original)
  decode_by byte_plane_predictor_rans coded n baseline = byteplane_decode order0_coder coded n
  decode_by bwt_predictor_rans coded n baseline = decode_bwt coded n baseline
  decode_by lz77_predictor_rans coded n baseline = do
    lz_bytes ← decode_sized coded baseline
    lz77_decode lz_bytes n
  decode_by lz_predictor_rans coded n baseline = elim r.lz_decode [
    | none ↦ err decompression
    | some lz_decode ↦ decode_sized coded baseline >>= λ lz_bytes. lz_decode lz_bytes n
  ]
  decode_by predictor_rans coded n baseline = do
    decoded ← decode_block r.predictor coded n (r.coding_predictor baseline)
    ok decoded.0
  decode_by zstd coded n baseline = decompress r.zstd_crate coded n
  decode_by store coded n baseline = if length coded == n then ok coded else err decompression

  unfoldable pub decompress_chunk_with_baseline :
      List ℕ → CompressionMethod → ℕ → Option (List ℕ) → Result (List ℕ)
  unfolding decode_by
  decompress_chunk_with_baseline coded method n baseline = do
    guard (leb n max_decompressed_block_size) resource_limit_exceeded
    decode_by method coded n baseline
