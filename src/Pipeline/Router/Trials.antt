-- ===== src/Pipeline/Router/Trials.antt =====
-- What a trial of the router makes of a chunk, the decoder by its method makes into the chunk.
use aether_arch.Base.{
  ℕ, ◌≤◌, ◌≡◌, refl, sym, ap, ◌∙◌, ◌&&◌, ◌||◌, List, ◌++◌, length, to_le, ltb, leb, if_rule, Option,
  none, some, arith, IsBytes, Bool-cases, Option-cases, inl, inr,
}
use aether_arch.Errors.{Result-cases, ok, ◌>>=◌}
use aether_arch.Archive.Codes.{
  CompressionMethod, predictor_rans, lz77_predictor_rans, bwt_predictor_rans,
  byte_plane_predictor_rans, ContentType,
}
use aether_arch.Coding.Rans.Blocks.{encode_block, decode_block}
use aether_arch.Coding.Rans.Reset.{reset-encode_block, decode_block-fresh}
use aether_arch.Coding.Bwt.{bwt_mtf_encode_parts, bwt_mtf_decode_parts}
use aether_arch.Coding.Bwt.Framing.{parts_inv}
use aether_arch.Coding.Lz77.RoundTrip.{lz77_decode-lz77_encode}
use aether_arch.Coding.Lz77.Output.{lz77_encode-IsBytes}
use aether_arch.Coding.BytePlane.{
  BytePlaneWidth, two, four, byteplane_encode, max_decompressed_block_size,
}
use aether_arch.Coding.BytePlane.Coder.{order0_coder}
use aether_arch.Coding.BytePlane.RoundTrip.{byteplane_decode-byteplane_encode}
use aether_arch.Pipeline.Router.{
  Entropy, Best, take_smaller, is_better, take_better, is_decisive, is_numeric, is_text,
  run_lengths, bwt_payload, Setting,
}
use aether_arch.Pipeline.Router.Encode.{
  plane_with, width_trial, numeric_trial, bwt_trial, lz77_trial, plane_trial, plain_trial,
}
use aether_arch.Pipeline.Router.Decode.{decode_runs, decode_by}
use aether_arch.Pipeline.Router.Payloads.{
  IsSound, runs_lem, decode_bwt-bwt_payload, decode_sized-length,
}

-- A chunk that is no larger than a block may be.
module _ {S : Type 0} (r : Setting S) {Good : S → Type 0} {Alike : S → S → Type 0}
    (sound : IsSound r Good Alike) (baseline : Option (List ℕ)) (bytes : List ℕ)
    (hb : IsBytes bytes) (small : length bytes ≤ max_decompressed_block_size) where
  -- The decoder makes the chunk of the payload, which is no larger.
  abbrev pub Decodes : CompressionMethod × List ℕ → Type 0
  Decodes found =
      (decode_by r found.0 found.1 (length bytes) baseline ≡ ok bytes)
      × (length found.1 ≤ length bytes)

  abbrev pub IsBest : Best → Type 0
  IsBest none = Unit
  IsBest (some found) = Decodes found

  -- The predictor would be reset to a state like that of the decoder's.
  abbrev pub IsScratch : S → Type 0
  IsScratch s = Alike (r.predictor.reset s) (r.predictor.reset (r.coding_predictor baseline))

  pub take_smaller-IsBest :
      (method : CompressionMethod) (payload : List ℕ) (best : Best)
      → IsBest best
      → decode_by r method payload (length bytes) baseline ≡ ok bytes
      → IsBest (take_smaller method payload bytes best)
  take_smaller-IsBest method payload best held e =
      if_rule IsBest (ltb (length payload) (length bytes)) (some (method, payload)) best
        (λ less. (e, ground (arith, less))) (λ more. held)

  pub take_better-IsBest :
      (method : CompressionMethod) (payload : List ℕ) (best : Best)
      → IsBest best
      → decode_by r method payload (length bytes) baseline ≡ ok bytes
      → IsBest (take_better method payload bytes best)
  take_better-IsBest method payload best held e =
      if_rule IsBest (ltb (length payload) (length bytes) && is_better payload best)
        (some (method, payload)) best (λ less. (e, ground (arith, less))) (λ more. held)

  planes_decode :
      (width : BytePlaneWidth) (payload : List ℕ)
      → byteplane_encode order0_coder r.entropies bytes width ≡ some payload
      → decode_by r byte_plane_predictor_rans payload (length bytes) baseline ≡ ok bytes
  planes_decode width payload e =
      unfold decode_by in
      (byteplane_decode-byteplane_encode order0_coder r.entropies bytes width payload hb e).0

  pub plane_with-IsBest :
      (width : BytePlaneWidth) (best : Best) → IsBest best → IsBest (plane_with r width bytes best)
  unfolding plane_with
  plane_with-IsBest width best held =
      elim (Option-cases (byteplane_encode order0_coder r.entropies bytes width)) [
        | inl e ↦ rw (plane_with, e) held
        | inr (payload, e) ↦
            rw (plane_with, e)
              (take_better-IsBest byte_plane_predictor_rans payload best held
                (planes_decode width payload e))
      ]

  width_trial-IsBest :
      (width : BytePlaneWidth) (best : Best) → IsBest best → IsBest (width_trial r width bytes best)
  width_trial-IsBest width best held =
      if_rule IsBest (r.is_byteplane_beneficial bytes width) (plane_with r width bytes best) best
        (λ tried. plane_with-IsBest width best held) (λ skipped. held)

  pub numeric_trial-IsBest : IsBest (numeric_trial r bytes)
  unfolding numeric_trial
  numeric_trial-IsBest = elim (Option-cases (r.detect_numeric_width bytes)) [
    | inl e ↦
        rw (numeric_trial, e)
          (width_trial-IsBest four (width_trial r two bytes none) (width_trial-IsBest two none tt))
    | inr (width, e) ↦ elim (Option-cases (byteplane_encode order0_coder r.entropies bytes width)) [
      | inl e' ↦ rw (numeric_trial, e, e') tt
      | inr (payload, e') ↦
          rw (numeric_trial, e, e')
            (take_smaller-IsBest byte_plane_predictor_rans payload none tt
              (planes_decode width payload e'))
    ]
  ]

  pub plane_trial-IsBest :
      (content : ContentType) (best : Best)
      → IsBest best
      → IsBest (plane_trial r bytes content best)
  unfolding plane_trial
  plane_trial-IsBest content best held =
      if_rule IsBest (is_numeric content || is_text content) best
        (elim (r.detect_numeric_width bytes) [
          | none ↦ best
          | some width ↦ plane_with r width bytes best
        ])
        (λ skipped. held)
        (λ tried. elim (Option-cases (r.detect_numeric_width bytes)) [
          | inl e ↦ rw e held
          | inr (width, e) ↦ rw e (plane_with-IsBest width best held)
        ])

  -- What the coder makes of bytes with the scratch predictor, and the decoder of that.
  coded_back :
      (xs : List ℕ) (s s' : S) (rc_bytes : List ℕ)
      → IsScratch s
      → IsBytes xs
      → length xs ≤ max_decompressed_block_size
      → encode_block r.predictor xs s ≡ ok (rc_bytes, s')
      → IsScratch s'
        × ((t : S) × (decode_block r.predictor rc_bytes (length xs) (r.coding_predictor baseline)
              ≡ ok (xs, t)))
  coded_back xs s s' rc_bytes scratch h fits done = (
    sound.alike.joined (r.predictor.reset s') (r.predictor.reset s)
        (r.predictor.reset (r.coding_predictor baseline))
        (reset-encode_block r.predictor sound.lawful sound.alike xs s s' rc_bytes done) scratch,
    decode_block-fresh r.predictor sound.lawful sound.alike xs s s' (r.coding_predictor baseline)
        rc_bytes scratch h fits done,
  )

  pub plain_trial-IsBest :
      (best : Best) (s : S) → IsScratch s → IsBest best → IsBest (plain_trial r bytes best s)
  unfolding plain_trial
  plain_trial-IsBest (some found) s scratch held = held
  plain_trial-IsBest none s scratch held = elim (Result-cases (encode_block r.predictor bytes s)) [
    | inl (reason, e) ↦ rw (plain_trial, e) tt
    | inr ((rc_bytes, s'), e) ↦
        let (kept, (t, back)) = coded_back bytes s s' rc_bytes scratch hb small e in
        rw (plain_trial, e)
          (take_smaller-IsBest predictor_rans rc_bytes none tt (unfold decode_by in rw back refl))
  ]

  pub lz77_trial-IsBest :
      (best : Best) (s : S)
      → IsScratch s
      → IsBest best
      → IsBest (lz77_trial r bytes best s).0 × IsScratch (lz77_trial r bytes best s).1
  unfolding lz77_trial
  lz77_trial-IsBest best s scratch held = elim (Bool-cases (is_decisive bytes best)) [
    | inl decisive ↦ rw (lz77_trial, decisive) (held, scratch)
    | inr open_still ↦ elim (lz77_decode-lz77_encode bytes) [
      | inl e ↦ rw (lz77_trial, open_still, e) (held, scratch)
      | inr (lz_bytes, e, less, original) ↦
          elim (Result-cases (encode_block r.predictor lz_bytes s)) [
            | inl (reason, failed) ↦ rw (lz77_trial, open_still, e, failed) (held, scratch)
            | inr ((rc_bytes, s'), done) ↦
                let fits : length lz_bytes ≤ max_decompressed_block_size =
                  omega (arith, less, small) in
                let (kept, (t, back)) =
                  coded_back lz_bytes s s' rc_bytes scratch
                    (lz77_encode-IsBytes bytes lz_bytes hb e) fits done in
                let decoded : decode_by r lz77_predictor_rans
                      (to_le 4 (length lz_bytes) ++ rc_bytes) (length bytes) baseline
                    ≡ ok bytes =
                  unfold decode_by in
                  rw (decode_sized-length r baseline (length lz_bytes) rc_bytes fits, back)
                    original in
                rw (lz77_trial, open_still, e, done)
                  (
                    take_better-IsBest lz77_predictor_rans (to_le 4 (length lz_bytes) ++ rc_bytes)
                        best held decoded,
                    kept,
                  )
          ]
    ]
  ]

  ranks_back :
      (primary : ℕ) (ranks : List ℕ) (s s' : S) (rc_bytes : List ℕ)
      → IsScratch s
      → 2 ≤ length bytes
      → bwt_mtf_encode_parts r.sais bytes ≡ ok (primary, ranks)
      → encode_block r.predictor (run_lengths ranks).0 s ≡ ok (rc_bytes, s')
      → IsScratch s'
        × (decode_by r bwt_predictor_rans
              (bwt_payload (run_lengths ranks).1 primary (length (run_lengths ranks).0) rc_bytes)
              (length bytes)
              baseline
            ≡ ok bytes)
  unfolding decode_by
  ranks_back primary ranks s s' rc_bytes scratch long e done =
      let (ranks_bytes, size, fits, below, original) =
        parts_inv r.sais bytes primary ranks (sound.sorted bytes) hb long e in
      let (run_bytes, run_size, flags, undone) =
        runs_lem r ranks ranks_bytes (omega (arith, size, fits)) in
      let coded = run_lengths ranks in
      let (kept, (t, back)) = coded_back coded.0 s s' rc_bytes scratch run_bytes run_size done in
      let runs : decode_runs r coded.1 coded.0 (length bytes) ≡ ok ranks = rw (sym size) undone in
      (
        kept,
        decode_bwt-bwt_payload r baseline coded.1 primary (length coded.0) (length bytes) rc_bytes
              flags (omega (arith, below, fits)) run_size
            ∙ ap
                (λ m. m >>= λ decoded. decode_runs r coded.1 decoded.0 (length bytes) >>= λ found.
                  bwt_mtf_decode_parts primary found (length bytes))
                back
            ∙ ap (λ m. m >>= λ found. bwt_mtf_decode_parts primary found (length bytes)) runs
            ∙ original,
      )

  pub bwt_trial-IsBest :
      (entropy : Entropy) (best : Best) (s : S)
      → IsScratch s
      → IsBest best
      → IsBest (bwt_trial r bytes entropy best s).0 × IsScratch (bwt_trial r bytes entropy best s).1
  unfolding bwt_trial
  bwt_trial-IsBest entropy best s scratch held =
      elim (Bool-cases (leb 8 (length bytes) && entropy.below_bwt_skip)) [
        | inr skipped ↦ rw (bwt_trial, skipped) (held, scratch)
        | inl tried ↦ elim (Result-cases (bwt_mtf_encode_parts r.sais bytes)) [
          | inl (reason, e) ↦ rw (bwt_trial, tried, e) (held, scratch)
          | inr ((primary, ranks), e) ↦
              let coded = run_lengths ranks in
              elim (Result-cases (encode_block r.predictor coded.0 s)) [
                | inl (reason, failed) ↦ rw (bwt_trial, tried, e, failed) (held, scratch)
                | inr ((rc_bytes, s'), done) ↦
                    let (kept, decoded) =
                      ranks_back primary ranks s s' rc_bytes scratch (ground (arith, tried)) e
                        done in
                    rw (bwt_trial, tried, e, done)
                      (
                        take_smaller-IsBest bwt_predictor_rans
                            (bwt_payload coded.1 primary (length coded.0) rc_bytes) best held
                            decoded,
                        kept,
                      )
              ]
        ]
      ]
