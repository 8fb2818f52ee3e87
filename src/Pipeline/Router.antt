-- ===== src/Pipeline/Router.antt =====
-- aether-core/src/pipeline/router.rs: the choice of a method for a chunk, and the decoding by the method.
-- The `f64` entropy of a chunk is given by how it compares with the thresholds.
pub mod Encode
pub mod Decode
pub mod Payloads
pub mod Trials
pub mod Cascade
pub mod RoundTrip
pub mod Tests
use aether_arch.Base.{
  ℕ, zero, suc, ◌+◌, ◌*◌, ◌/◌, Bool, true, false, ◌&&◌, ◌||◌, not, List, [], ◌∷◌, ◌++◌, length,
  get_or, take, drop, to_le, from_le, ltb, leb, ◌==◌, if◌then◌else◌, Option, none, some,
}
use aether_arch.Errors.{Result, ok, err, decompression, resource_limit_exceeded, ◌>>=◌, ◌>>◌, guard}
use aether_arch.Archive.Codes.{
  CompressionMethod, predictor_rans, zstd, store, lz_predictor_rans, lz77_predictor_rans,
  bwt_predictor_rans, byte_plane_predictor_rans, bcj_zstd, ContentType, mixed, text,
  binary_structured, binary_random, image, executable, numeric_data,
}
use aether_arch.Chunker.{ChunkRef}
use aether_arch.Entropy.{Predictor}
use aether_arch.Coding.Rans.Blocks.{encode_block, decode_block}
use aether_arch.Coding.Bcj.{encode_x86, decode_x86}
use aether_arch.Coding.Bwt.{bwt_mtf_encode_parts, bwt_mtf_decode_parts}
use aether_arch.Coding.ZeroRun.{rle_encode, rle_decode, rle_encode_escaped, rle_decode_escaped}
use aether_arch.Coding.Lz77.Encode.{lz77_encode}
use aether_arch.Coding.Lz77.Decode.{lz77_decode}
use aether_arch.Coding.BytePlane.{
  BytePlaneWidth, two, four, Entropies, byteplane_encode, byteplane_decode,
  max_decompressed_block_size,
}
use aether_arch.Coding.BytePlane.Coder.{order0_coder}
use aether_arch.Pipeline.Zstd.{ZstdCrate, compress, decompress}

pub data RecommendedMethod : Type 0 where
  by_predictor by_zstd by_store : RecommendedMethod

pub data CompressionProfile : Type 0 where
  archival balanced fast : CompressionProfile

-- How the entropy of a chunk, an `f64`, compares with the thresholds.
pub record Entropy : Type 0 where
  pub above_incompressible : Bool
  pub above_high : Bool
  pub below_bwt_skip : Bool

pub record CompressedChunk : Type 0 where
  pub method : CompressionMethod
  pub payload : List ℕ
  pub original_size : ℕ
  pub blake3_hash : List ℕ
  pub predictor_synced : Bool

unfoldable pub recommend_method : Entropy → RecommendedMethod
recommend_method e =
    if e.above_incompressible then by_store else if e.above_high then by_zstd else by_predictor

unfoldable pub recommend_method_for : Entropy → ContentType → RecommendedMethod
unfolding recommend_method
recommend_method_for e binary_random = if e.above_incompressible then by_store else by_zstd
recommend_method_for e image = if e.above_high then by_store else by_zstd
recommend_method_for e numeric_data = if e.above_incompressible then by_store else by_predictor
recommend_method_for e mixed = recommend_method e
recommend_method_for e text = recommend_method e
recommend_method_for e binary_structured = recommend_method e
recommend_method_for e executable = recommend_method e

abbrev pub is_numeric : ContentType → Bool
is_numeric numeric_data = true
is_numeric _ = false

abbrev pub is_text : ContentType → Bool
is_text text = true
is_text _ = false

abbrev pub is_executable : ContentType → Bool
is_executable executable = true
is_executable _ = false

-- The content types that a balanced profile sends on the fast route.
abbrev pub is_binary : ContentType → Bool
is_binary binary_structured = true
is_binary binary_random = true
is_binary image = true
is_binary executable = true
is_binary _ = false

abbrev pub is_fast : CompressionProfile → ContentType → Bool
is_fast fast content = true
is_fast balanced content = is_binary content
is_fast archival content = false

-- A method with its payload, where one has been found.
abbrev pub Best : Type 0
Best = Option (CompressionMethod × List ℕ)

abbrev pub take_smaller : CompressionMethod → List ℕ → List ℕ → Best → Best
take_smaller method payload bytes best =
    if ltb (length payload) (length bytes) then some (method, payload) else best

abbrev pub is_better : List ℕ → Best → Bool
is_better payload none = true
is_better payload (some (method, b)) = ltb (length payload) (length b)

abbrev pub take_better : CompressionMethod → List ℕ → List ℕ → Best → Best
take_better method payload bytes best =
    if ltb (length payload) (length bytes) && is_better payload best
    then some (method, payload)
    else best

-- BWT_DECISIVE_RATIO is 55.
abbrev pub is_decisive : List ℕ → Best → Bool
is_decisive bytes none = false
is_decisive bytes (some (method, b)) =
    ltb 0 (length bytes) && ltb (length b) (length bytes / 100 * 55)

-- The ranks with their runs of zeros coded, and the flags.
abbrev pub run_lengths : List ℕ → List ℕ × ℕ
run_lengths ranks = elim (rle_encode ranks) [
  | some rle ↦ (rle, 1)
  | none ↦ (rle_encode_escaped ranks, 2)
]

abbrev pub bwt_payload : ℕ → ℕ → ℕ → List ℕ → List ℕ
bwt_payload flags primary encoded_len coded =
    flags ∷ (to_le 4 primary ++ (to_le 4 encoded_len ++ coded))

-- What the router calls: the predictor of the coder with its first state, and what is floating point,
-- a crate or built only with a feature.
pub record Setting (S : Type 0) : Type 0 where
  pub predictor : Predictor S
  pub coding_predictor : Option (List ℕ) → S
  pub zstd_crate : ZstdCrate
  pub sais : List ℕ → Option (List ℕ)
  pub entropies : Entropies
  pub detect_numeric_width : List ℕ → Option BytePlaneWidth
  pub is_byteplane_beneficial : List ℕ → BytePlaneWidth → Bool
  pub lz_decode : Option (List ℕ → ℕ → Result (List ℕ))
