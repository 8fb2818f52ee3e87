-- ===== src/Pipeline/Router/Tests.antt =====
-- A chunk through the router, with a dictionary, and a predictor that keeps a cache over a reset.
use aether_arch.Base.{
  ℕ, ◌≤◌, ◌≡◌, ◌⊎◌, refl, ap, ◌∙◌, ◌%◌, true, false, List, [], ◌∷◌, length, take, Option, none,
  some, arith,
}
use aether_arch.Errors.{ok, err, compression}
use aether_arch.Archive.Codes.{mixed}
use aether_arch.Chunker.{ChunkRef}
use aether_arch.Entropy.{Predictor, IsLawful}
use aether_arch.Entropy.Order0.{Order0Model, order0, fresh}
use aether_arch.Entropy.Order0.Model.{IsModel, fresh-IsModel, update-IsModel}
use aether_arch.Entropy.Order0.Lawful.{order0-IsLawful}
use aether_arch.Coding.Rans.Reset.{ResetsAlike}
use aether_arch.Coding.Bwt.Tests.{abab, sais, sais-IsSuffixArray, abab-IsBytes}
use aether_arch.Pipeline.Router.{Entropy, CompressedChunk, archival, Setting}
use aether_arch.Pipeline.Router.Encode.{compress_chunk_with_baseline}
use aether_arch.Pipeline.Router.Decode.{decompress_chunk_with_baseline}
use aether_arch.Pipeline.Router.Payloads.{IsSound}
use aether_arch.Pipeline.Router.Cascade.{Fails}
use aether_arch.Pipeline.Router.RoundTrip.{chunk_round_trip}

-- The order-0 model with the model that a reset brings back, and the last interval, which a reset does
-- not touch and the next symbol rewrites.
record Cached : Type 0 where
  trained : Option ℕ
  model : Order0Model
  last : ℕ × ℕ

-- A dictionary has trained the model on its first byte.
abbrev baseline_model : Option ℕ → Order0Model
baseline_model none = fresh
baseline_model (some b) = order0.update fresh (b % 256)

abbrev cached : Predictor Cached
cached = record {
  reset = λ s. record { trained = s.trained; model = baseline_model s.trained; last = s.last };
  query_cdf = λ s b.
      let q = order0.query_cdf s.model b in
      (q.0, record { trained = s.trained; model = q.1; last = q.0 });
  decode_symbol = λ s freq.
      let d = order0.decode_symbol s.model freq in
      (d.0, record { trained = s.trained; model = d.1; last = d.0.1 });
  update = λ s b. record { trained = s.trained; model = order0.update s.model b; last = s.last };
}

abbrev IsCached : Cached → Type 0
IsCached s = IsModel s.model

-- Equal but for the last interval.
abbrev Alike : Cached → Cached → Type 0
Alike s t = (s.trained ≡ t.trained) × (s.model ≡ t.model)

baseline_model-IsModel : (trained : Option ℕ) → IsModel (baseline_model trained)
baseline_model-IsModel none = fresh-IsModel
baseline_model-IsModel (some b) = update-IsModel fresh (b % 256) (omega arith) fresh-IsModel

cached-IsLawful : IsLawful cached IsCached
cached-IsLawful = record {
  reset-Good = λ s. baseline_model-IsModel s.trained;
  update-Good = λ s b small h. order0-IsLawful.update-Good s.model b small h;
  interval = λ s b small h. order0-IsLawful.interval s.model b small h;
  decode = λ s b freq small h least most.
      ap
        (λ (d : (ℕ × (ℕ × ℕ)) × Order0Model).
          (d.0, record { trained = s.trained; model = d.1; last = d.0.1 }))
        (order0-IsLawful.decode s.model b freq small h least most);
}

cached-ResetsAlike : ResetsAlike cached Alike
cached-ResetsAlike = record {
  same = λ s. (refl, refl);
  joined = λ s t u h k. (h.0 ∙ k.0, h.1 ∙ k.1);
  decode = λ s t freq h. rw (h.0, h.1) refl;
  reset_reset = λ s. (refl, refl);
  reset_update = λ s b. (refl, refl);
}

abbrev read : List ℕ → ℕ → Option (List ℕ)
read [] limit = none
read (b ∷ xs) limit = some (take limit xs)

abbrev first_byte : Option (List ℕ) → Option ℕ
first_byte (some (b ∷ dictionary)) = some b
first_byte _ = none

abbrev setting : Setting Cached
setting = record {
  predictor = cached;
  coding_predictor =
      λ dictionary. record { trained = first_byte dictionary; model = fresh; last = (0, 0) };
  zstd_crate = record { encode_all = λ xs. some (0 ∷ xs); read = read };
  sais = sais;
  entropies = record { is_low = λ xs. true; is_gain = λ xs ys. false };
  detect_numeric_width = λ xs. none;
  is_byteplane_beneficial = λ xs width. false;
  lz_decode = none;
}

setting-IsSound : IsSound setting IsCached Alike
setting-IsSound = record {
  lawful = cached-IsLawful;
  alike = cached-ResetsAlike;
  crate = λ xs ys limit e. let same : ys ≡ 0 ∷ xs = cc e in ap (λ t. read t limit) same;
  sorted = sais-IsSuffixArray;
}

abbrev chunk : ChunkRef
chunk = record { offset = 0; len = 8; bytes = abab; blake3_hash = [] }

abbrev structured : Entropy
structured = record { above_incompressible = false; above_high = false; below_bwt_skip = true }

abbrev dictionary : Option (List ℕ)
dictionary = some (b'a' ∷ b'b' ∷ [])

chunk_round_trip_example :
    (Fails setting.zstd_crate abab
      × (compress_chunk_with_baseline setting chunk structured dictionary mixed archival
          ≡ err compression))
    ⊎ ((found : CompressedChunk) × (compress_chunk_with_baseline setting chunk structured dictionary
            mixed archival
          ≡ ok found)
        × (length found.payload ≤ length abab)
        × (decompress_chunk_with_baseline setting found.payload found.method found.original_size
              dictionary
            ≡ ok abab))
chunk_round_trip_example =
    chunk_round_trip setting chunk structured dictionary mixed archival setting-IsSound abab-IsBytes
      refl (omega arith)
