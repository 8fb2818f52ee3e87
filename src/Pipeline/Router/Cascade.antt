-- ===== src/Pipeline/Router/Cascade.antt =====
-- What the cascade and the fast route choose, the decoder makes into the chunk.
use aether_arch.Base.{
  ℕ, ◌≤◌, ◌≡◌, refl, sym, ap, ◌∙◌, Bool, true, false, ◌&&◌, ◌||◌, List, length, ltb, leb,
  if◌then◌else◌, if_rule, Option, none, some, arith, IsBytes, Bool-cases, Option-cases, inl, inr,
  ==_refl, ◌⊎◌,
}
use aether_arch.Errors.{Result, ok, err, compression, ◌>>=◌}
use aether_arch.Archive.Codes.{CompressionMethod, zstd, store, bcj_zstd, ContentType}
use aether_arch.Coding.Bcj.{encode_x86, decode_x86}
use aether_arch.Coding.Bcj.RoundTrip.{decode_x86-encode_x86}
use aether_arch.Coding.BytePlane.{max_decompressed_block_size}
use aether_arch.Pipeline.Zstd.{ZstdCrate, compress, decompress, decompress-compress}
use aether_arch.Pipeline.Router.{Entropy, Best, is_numeric, Setting}
use aether_arch.Pipeline.Router.Encode.{numeric_trial, bwt_trial, lz77_trial, plane_trial}
use aether_arch.Pipeline.Router.Decode.{decode_by}
use aether_arch.Pipeline.Router.Payloads.{IsSound}
use aether_arch.Pipeline.Router.{RecommendedMethod, by_predictor, by_zstd, by_store, is_executable}
use aether_arch.Pipeline.Router.Encode.{
  neural_trials, try_zstd_or_store, predictor_trials, is_found, is_synced, by_recommended,
  bcj_candidate, fast_bcj, fast_route, with_bcj,
}
use aether_arch.Pipeline.Router.Trials.{
  Decodes, IsBest, take_smaller-IsBest, numeric_trial-IsBest, plane_trial-IsBest,
  plain_trial-IsBest, lz77_trial-IsBest, bwt_trial-IsBest,
}

-- The crate fails on the chunk, or on what the filter for executables makes of it.
abbrev pub Fails : ZstdCrate → List ℕ → Type 0
Fails z bytes =
    (xs : List ℕ) × ((xs ≡ bytes) ⊎ (encode_x86 bytes ≡ some xs)) × (z.encode_all xs ≡ none)

-- A result with a property, or the error of a crate that fails.
abbrev pub Gives {ℓ κ} : ZstdCrate → List ℕ → {T : Type ℓ} → (T → Type κ) → Result T → Type (ℓ ⊔ κ)
Gives z bytes P m =
    (Fails z bytes × (m ≡ err compression)) ⊎ ((value : _) × (m ≡ ok value) × P value)

compress-cases :
    (z : ZstdCrate) (xs : List ℕ)
    → ((z.encode_all xs ≡ none) × (compress z xs ≡ err compression))
      ⊎ ((ys : List ℕ) × (compress z xs ≡ ok ys))
unfolding compress
compress-cases z xs = elim (Option-cases (z.encode_all xs)) [
  | inl e ↦ inl (e, rw (compress, e) refl)
  | inr (ys, e) ↦ inr (ys, rw (compress, e) refl)
]

module _ {S : Type 0} (r : Setting S) {Good : S → Type 0} {Alike : S → S → Type 0}
    (sound : IsSound r Good Alike) (baseline : Option (List ℕ)) (bytes : List ℕ)
    (hb : IsBytes bytes) (small : length bytes ≤ max_decompressed_block_size) where
  abbrev pub Back : CompressionMethod × List ℕ → Type 0
  Back = Decodes r sound baseline bytes hb small

  abbrev Kept : Best → Type 0
  Kept = IsBest r sound baseline bytes hb small

  unpacked :
      (coded : List ℕ)
      → compress r.zstd_crate bytes ≡ ok coded
      → decode_by r zstd coded (length bytes) baseline ≡ ok bytes
  unfolding decode_by
  unpacked coded e = decompress-compress r.zstd_crate bytes coded sound.crate small e

  stored : Back (store, bytes)
  stored = (unfold decode_by in rw (==_refl (length bytes)) refl, omega arith)

  unfiltered :
      (transformed coded : List ℕ)
      → encode_x86 bytes ≡ some transformed
      → compress r.zstd_crate transformed ≡ ok coded
      → decode_by r bcj_zstd coded (length bytes) baseline ≡ ok bytes
  unfolding decode_by
  unfiltered transformed coded filtered e =
      let (original, size) = decode_x86-encode_x86 bytes transformed hb filtered in
      let back =
        decompress-compress r.zstd_crate transformed coded sound.crate (omega (arith, size, small))
          e in
      ap (λ n. decompress r.zstd_crate coded n >>= λ found. ok (decode_x86 found)) (sym size)
      ∙ ap (λ m. m >>= λ found. ok (decode_x86 found)) back
      ∙ ap ok original

  zstd_or_store :
      (coded : List ℕ)
      → compress r.zstd_crate bytes ≡ ok coded
      → Back (if ltb (length coded) (length bytes) then (zstd, coded) else (store, bytes))
  zstd_or_store coded e =
      if_rule Back (ltb (length coded) (length bytes)) (zstd, coded) (store, bytes)
        (λ less. (unpacked coded e, ground (arith, less))) (λ more. stored)

  try_zstd_or_store-Back : Back (try_zstd_or_store r bytes)
  unfolding try_zstd_or_store
  try_zstd_or_store-Back = elim (compress-cases r.zstd_crate bytes) [
    | inl (failed, e) ↦ rw (try_zstd_or_store, e) stored
    | inr (coded, e) ↦ rw (try_zstd_or_store, e) (zstd_or_store coded e)
  ]

  neural_trials-Kept :
      (content : ContentType) (entropy : Entropy) (best : Best)
      → Kept best
      → Kept (neural_trials r bytes content entropy baseline best)
  unfolding neural_trials
  neural_trials-Kept content entropy best held =
      let start = r.coding_predictor baseline in
      let (by_bwt, scratch) =
        bwt_trial-IsBest r sound baseline bytes hb small entropy best start
          (sound.alike.same (r.predictor.reset start)) held in
      let bwt = bwt_trial r bytes entropy best start in
      let (by_lz77, scratch') =
        lz77_trial-IsBest r sound baseline bytes hb small bwt.0 bwt.1 scratch by_bwt in
      let lz77 = lz77_trial r bytes bwt.0 bwt.1 in
      plain_trial-IsBest r sound baseline bytes hb small (plane_trial r bytes content lz77.0) lz77.1
        scratch' (plane_trial-IsBest r sound baseline bytes hb small content lz77.0 by_lz77)

  predictor_trials-Kept :
      (content : ContentType) (entropy : Entropy)
      → Kept (predictor_trials r bytes content entropy baseline)
  unfolding predictor_trials
  predictor_trials-Kept content entropy =
      let best = if is_numeric content then numeric_trial r bytes else none in
      let held : Kept best =
        if_rule Kept (is_numeric content) (numeric_trial r bytes) none
          (λ numeric. numeric_trial-IsBest r sound baseline bytes hb small) (λ other. tt) in
      if_rule Kept (is_found r best || (is_numeric content && entropy.above_high)) best
        (neural_trials r bytes content entropy baseline best) (λ skipped. held)
        (λ tried. neural_trials-Kept content entropy best held)

  abbrev pub BackWith : (CompressionMethod × List ℕ) × Bool → Type 0
  BackWith found = Back found.0

  pub by_recommended-Gives :
      (method : RecommendedMethod) (content : ContentType) (entropy : Entropy)
      → Gives r.zstd_crate bytes BackWith (by_recommended r method bytes content entropy baseline)
  unfolding by_recommended
  by_recommended-Gives by_store content entropy = inr (((store, bytes), true), refl, stored)
  by_recommended-Gives by_zstd content entropy = elim (compress-cases r.zstd_crate bytes) [
    | inl (failed, e) ↦ inl ((bytes, inl refl, failed), rw (by_recommended, e) refl)
    | inr (coded, e) ↦
        let chosen : CompressionMethod × List ℕ =
          if leb (length bytes) (length coded) then (store, bytes) else (zstd, coded) in
        inr (
          (chosen, true),
          rw (by_recommended, e) refl,
          if_rule Back (leb (length bytes) (length coded)) (store, bytes) (zstd, coded)
              (λ more. stored) (λ less. (unpacked coded e, ground (arith, less))),
        )
  ]
  by_recommended-Gives by_predictor content entropy =
      found (predictor_trials r bytes content entropy baseline)
        (predictor_trials-Kept content entropy)
    where
      found :
          (best : Best)
          → Kept best
          → Gives r.zstd_crate bytes BackWith (elim best [
            | none ↦ ok (try_zstd_or_store r bytes, true)
            | some (method, payload) ↦ ok ((method, payload), is_synced r method)
          ])
      found none held = inr ((try_zstd_or_store r bytes, true), refl, try_zstd_or_store-Back)
      found (some (method, payload)) held =
          inr (((method, payload), is_synced r method), refl, held)

  pub bcj_candidate-Kept : (content : ContentType) → Kept (bcj_candidate r bytes content)
  unfolding bcj_candidate
  bcj_candidate-Kept content = elim (Bool-cases (is_executable content)) [
    | inr other ↦ rw (bcj_candidate, other) tt
    | inl program ↦ elim (Option-cases (encode_x86 bytes)) [
      | inl e ↦ rw (bcj_candidate, program, e) tt
      | inr (transformed, e) ↦ elim (compress-cases r.zstd_crate transformed) [
        | inl (failed, e') ↦ rw (bcj_candidate, program, e, e') tt
        | inr (coded, e') ↦
            rw (bcj_candidate, program, e, e')
              (take_smaller-IsBest r sound baseline bytes hb small bcj_zstd coded none tt
                (unfiltered transformed coded e e'))
      ]
    ]
  ]

  pub with_bcj-Back :
      (best : Best) (found : (CompressionMethod × List ℕ) × Bool)
      → Kept best
      → BackWith found
      → BackWith (with_bcj r best found)
  with_bcj-Back none found candidate held = held
  with_bcj-Back (some (method, payload)) found candidate held =
      if_rule BackWith (ltb (length payload) (length found.0.1)) ((method, payload), false) found
        (λ less. candidate) (λ more. held)

  fast_bcj-Gives :
      (content : ContentType) (best : CompressionMethod × List ℕ)
      → Back best
      → Gives r.zstd_crate bytes Back (fast_bcj r bytes content best)
  unfolding fast_bcj
  fast_bcj-Gives content best held = elim (Bool-cases (is_executable content)) [
    | inr other ↦ inr (best, rw (fast_bcj, other) refl, held)
    | inl program ↦ elim (Option-cases (encode_x86 bytes)) [
      | inl e ↦ inr (best, rw (fast_bcj, program, e) refl, held)
      | inr (transformed, e) ↦ elim (compress-cases r.zstd_crate transformed) [
        | inl (failed, e') ↦ inl ((transformed, inr e, failed), rw (fast_bcj, program, e, e') refl)
        | inr (coded, e') ↦ inr (
          (if ltb (length coded) (length best.1) then (bcj_zstd, coded) else best),
          rw (fast_bcj, program, e, e') refl,
          if_rule Back (ltb (length coded) (length best.1)) (bcj_zstd, coded) best
              (λ less. (unfiltered transformed coded e e', ground (arith, less, held.1)))
              (λ more. held),
        )
      ]
    ]
  ]

  pub fast_route-Gives :
      (content : ContentType) → Gives r.zstd_crate bytes Back (fast_route r bytes content)
  unfolding fast_route
  fast_route-Gives content = elim (compress-cases r.zstd_crate bytes) [
    | inl (failed, e) ↦ inl ((bytes, inl refl, failed), rw (fast_route, e) refl)
    | inr (coded, e) ↦
        let start : CompressionMethod × List ℕ =
          if ltb (length coded) (length bytes) then (zstd, coded) else (store, bytes) in
        elim (fast_bcj-Gives content start (zstd_or_store coded e)) [
          | inl (failed, e') ↦ inl (failed, rw (fast_route, e) e')
          | inr (best, e', held) ↦ inr (best, rw (fast_route, e) e', held)
        ]
  ]
