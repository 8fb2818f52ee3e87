-- ===== src/Pipeline/Router/RoundTrip.antt =====
-- A chunk that the router compresses, its decoder gives back.
use aether_arch.Base.{
  ℕ, ◌≤◌, ◌<◌, ◌≡◌, refl, ap, ◌∙◌, Bool, true, false, List, length, Option, arith, leb, IsBytes,
  Bool-cases, inl, inr, ◌⊎◌,
}
use aether_arch.Errors.{ok, err, compression, resource_limit_exceeded}
use aether_arch.Archive.Codes.{CompressionMethod, ContentType}
use aether_arch.Chunker.{ChunkRef}
use aether_arch.Coding.BytePlane.{max_decompressed_block_size}
use aether_arch.Pipeline.Router.{
  Entropy, CompressionProfile, CompressedChunk, recommend_method_for, is_fast, Setting,
}
use aether_arch.Pipeline.Router.Encode.{bcj_candidate, with_bcj, compress_chunk_with_baseline}
use aether_arch.Pipeline.Router.Decode.{decode_by, decompress_chunk_with_baseline}
use aether_arch.Pipeline.Router.Payloads.{IsSound}
use aether_arch.Pipeline.Router.Cascade.{
  Fails, by_recommended-Gives, bcj_candidate-Kept, with_bcj-Back, fast_route-Gives,
}

within :
    {S : Type 0} (r : Setting S) (payload : List ℕ) (method : CompressionMethod) (n : ℕ)
    (baseline : Option (List ℕ))
    → n ≤ max_decompressed_block_size
    → decompress_chunk_with_baseline r payload method n baseline
      ≡ decode_by r method payload n baseline
unfolding decompress_chunk_with_baseline
within r payload method n baseline small =
    let room : leb n max_decompressed_block_size ≡ true = ground (arith, small) in rw room refl

-- For a chunk of bytes with its length, no larger than a block may be (64 MiB), and a sound setting: a
-- lawful predictor whose reset forgets what was coded, up to what the next symbol rewrites, a zstd crate
-- that decodes what it encodes, and suffix arrays. Whatever the profile, the content type, the entropy
-- and the dictionary are, either zstd's `encode_all` fails on the chunk, or on what
-- `encode_x86` makes of it, and `compress_chunk_with_baseline` returns the error `compression`, or it
-- returns a payload that is no larger than the chunk, and `decompress_chunk_with_baseline` makes the
-- chunk of it, given the method, the size and the dictionary.
pub chunk_round_trip :
    {S : Type 0} (r : Setting S) {Good : S → Type 0} {Alike : S → S → Type 0} (chunk : ChunkRef)
    (entropy : Entropy) (baseline : Option (List ℕ)) (content : ContentType)
    (profile : CompressionProfile)
    → IsSound r Good Alike
    → IsBytes chunk.bytes
    → chunk.len ≡ length chunk.bytes
    → chunk.len ≤ max_decompressed_block_size
    → (Fails r.zstd_crate chunk.bytes
        × (compress_chunk_with_baseline r chunk entropy baseline content profile ≡ err compression))
      ⊎ ((found : CompressedChunk) × (compress_chunk_with_baseline r chunk entropy baseline content
              profile
            ≡ ok found)
          × (length found.payload ≤ length chunk.bytes)
          × (decompress_chunk_with_baseline r found.payload found.method found.original_size
                baseline
              ≡ ok chunk.bytes))
unfolding compress_chunk_with_baseline
chunk_round_trip r chunk entropy baseline content profile sound hb size small =
    elim (Bool-cases (is_fast profile content)) [
      | inl fast_profile ↦ elim (fast_route-Gives r sound baseline bytes hb fits content) [
        | inl (failed, e) ↦ inl (failed, rw (compress_chunk_with_baseline, fast_profile, e) refl)
        | inr (best, e, held) ↦ inr (
          result (best, false),
          rw (compress_chunk_with_baseline, fast_profile, e) refl,
          held.1,
          back best held,
        )
      ]
      | inr slow ↦
          let method = recommend_method_for entropy content in
          elim (by_recommended-Gives r sound baseline bytes hb fits method content entropy) [
            | inl (failed, e) ↦ inl (failed, rw (compress_chunk_with_baseline, slow, e) refl)
            | inr (chosen, e, held) ↦
                let candidate = bcj_candidate r bytes content in
                let final =
                  with_bcj-Back r sound baseline bytes hb fits candidate chosen
                    (bcj_candidate-Kept r sound baseline bytes hb fits content) held in
                let won = with_bcj r candidate chosen in
                inr (
                  result won,
                  rw (compress_chunk_with_baseline, slow, e) refl,
                  final.1,
                  back won.0 final,
                )
          ]
    ]
  where
    bytes : List ℕ
    bytes = chunk.bytes

    fits : length chunk.bytes ≤ max_decompressed_block_size
    fits = omega (arith, size, small)

    result : (CompressionMethod × List ℕ) × Bool → CompressedChunk
    result won = record {
      method = won.0.0;
      payload = won.0.1;
      original_size = chunk.len;
      blake3_hash = chunk.blake3_hash;
      predictor_synced = won.1;
    }

    back :
        (won : CompressionMethod × List ℕ)
        → (decode_by r won.0 won.1 (length chunk.bytes) baseline ≡ ok chunk.bytes)
          × (length won.1 ≤ length chunk.bytes)
        → decompress_chunk_with_baseline r won.1 won.0 chunk.len baseline ≡ ok chunk.bytes
    back won held =
        ap (λ n. decompress_chunk_with_baseline r won.1 won.0 n baseline) size
        ∙ within r won.1 won.0 (length chunk.bytes) baseline fits
        ∙ held.0

-- A payload of a size that is above the limit is refused, whatever its method is.
pub decompress_chunk_with_baseline-large :
    {S : Type 0} (r : Setting S) (payload : List ℕ) (method : CompressionMethod) (n : ℕ)
    (baseline : Option (List ℕ))
    → max_decompressed_block_size < n
    → decompress_chunk_with_baseline r payload method n baseline ≡ err resource_limit_exceeded
unfolding decompress_chunk_with_baseline
decompress_chunk_with_baseline-large r payload method n baseline large =
    let outside : leb n max_decompressed_block_size ≡ false = ground (arith, large) in
    rw outside refl
