-- ===== src/Archive/Codes.antt =====
-- aether-core/src/format.rs: the magic numbers, the limits, and the codes of the three enums.
use aether_arch.Base.{ℕ, ◌^◌, ◌<◌, ◌≡◌, refl, List, [], ◌∷◌, arith, if◌then◌else◌, ◌==◌, ◌↔◌}
use aether_arch.Errors.{
  Result, ok, err, unknown_predictor_id, unknown_compression_method, unknown_content_type,
}

abbrev pub magic : List ℕ
magic = 0xae ∷ 0x74 ∷ 0x68 ∷ 0x65 ∷ 0x72 ∷ 0x00 ∷ 0x01 ∷ 0x02 ∷ []

abbrev pub legacy_magic : List ℕ
legacy_magic = 0xae ∷ 0x74 ∷ 0x68 ∷ 0x65 ∷ 0x72 ∷ 0x00 ∷ 0x01 ∷ 0x00 ∷ []

abbrev pub block_magic : ℕ
block_magic = 0xb10c_ae01

abbrev pub footer_magic : ℕ
footer_magic = 0xae45_4e44

abbrev pub max_file_count : ℕ
max_file_count = 1_000_000

abbrev pub max_block_count : ℕ
max_block_count = 10_000_000

abbrev pub max_solid_group_count : ℕ
max_solid_group_count = 100_000

abbrev pub max_path_length : ℕ
max_path_length = 4096

pub data PredictorId : Type 0 where
  order0 context_mixer neural_ssm context_mixer_light lz4_aware rle mtf zstd_only : PredictorId

-- `self as u16`
abbrev pub predictor_code : PredictorId → ℕ
predictor_code order0 = 0
predictor_code context_mixer = 1
predictor_code neural_ssm = 2
predictor_code context_mixer_light = 3
predictor_code lz4_aware = 4
predictor_code rle = 5
predictor_code mtf = 6
predictor_code zstd_only = 0xff

unfoldable pub predictor_from_u16 : ℕ → Result PredictorId
predictor_from_u16 v =
    if v == 0
    then ok order0
    else if v == 1
    then ok context_mixer
    else if v == 2
    then ok neural_ssm
    else if v == 3
    then ok context_mixer_light
    else if v == 4
    then ok lz4_aware
    else if v == 5
    then ok rle
    else if v == 6
    then ok mtf
    else if v == 0xff
    then ok zstd_only
    else err (unknown_predictor_id v)

pub data CompressionMethod : Type 0 where
  predictor_rans zstd store lz_predictor_rans lz77_predictor_rans : CompressionMethod
  bwt_predictor_rans byte_plane_predictor_rans bcj_zstd : CompressionMethod

abbrev pub method_code : CompressionMethod → ℕ
method_code predictor_rans = 0
method_code zstd = 1
method_code store = 2
method_code lz_predictor_rans = 3
method_code lz77_predictor_rans = 4
method_code bwt_predictor_rans = 5
method_code byte_plane_predictor_rans = 6
method_code bcj_zstd = 7

unfoldable pub method_from_u8 : ℕ → Result CompressionMethod
method_from_u8 v =
    if v == 0
    then ok predictor_rans
    else if v == 1
    then ok zstd
    else if v == 2
    then ok store
    else if v == 3
    then ok lz_predictor_rans
    else if v == 4
    then ok lz77_predictor_rans
    else if v == 5
    then ok bwt_predictor_rans
    else if v == 6
    then ok byte_plane_predictor_rans
    else if v == 7
    then ok bcj_zstd
    else err (unknown_compression_method v)

pub data ContentType : Type 0 where
  mixed text binary_structured binary_random image executable numeric_data : ContentType

abbrev pub content_code : ContentType → ℕ
content_code mixed = 0
content_code text = 1
content_code binary_structured = 2
content_code binary_random = 3
content_code image = 4
content_code executable = 5
content_code numeric_data = 6

unfoldable pub content_from_u16 : ℕ → Result ContentType
content_from_u16 v =
    if v == 0
    then ok mixed
    else if v == 1
    then ok text
    else if v == 2
    then ok binary_structured
    else if v == 3
    then ok binary_random
    else if v == 4
    then ok image
    else if v == 5
    then ok executable
    else if v == 6
    then ok numeric_data
    else err (unknown_content_type v)

pub predictor_from-code : (p : PredictorId) → predictor_from_u16 (predictor_code p) ≡ ok p
unfolding predictor_from_u16
predictor_from-code order0 = refl
predictor_from-code _ = refl

pub method_from-code : (m : CompressionMethod) → method_from_u8 (method_code m) ≡ ok m
unfolding method_from_u8
method_from-code predictor_rans = refl
method_from-code _ = refl

pub content_from-code : (c : ContentType) → content_from_u16 (content_code c) ≡ ok c
unfolding content_from_u16
content_from-code mixed = refl
content_from-code _ = refl

predictor_from-ok : (v : ℕ) (p : PredictorId) → predictor_from_u16 v ≡ ok p → predictor_code p ≡ v
unfolding predictor_from_u16
predictor_from-ok v p h = ground arith

method_from-ok : (v : ℕ) (m : CompressionMethod) → method_from_u8 v ≡ ok m → method_code m ≡ v
unfolding method_from_u8
method_from-ok v m h = ground arith

content_from-ok : (v : ℕ) (c : ContentType) → content_from_u16 v ≡ ok c → content_code c ≡ v
unfolding content_from_u16
content_from-ok v c h = ground arith

-- For each of the three enums, reading a number gives a variant exactly when the number is that
-- variant's code; so writing and reading are inverse, and no number is read as two variants.
pub codes_exact :
    (v : ℕ) (p : PredictorId) (m : CompressionMethod) (c : ContentType)
    → ((predictor_from_u16 v ≡ ok p) ↔ (predictor_code p ≡ v))
      × ((method_from_u8 v ≡ ok m) ↔ (method_code m ≡ v))
      × ((content_from_u16 v ≡ ok c) ↔ (content_code c ≡ v))
codes_exact v p m c = (
  (predictor_from-ok v p, λ e. rw (← e) (predictor_from-code p)),
  (method_from-ok v m, λ e. rw (← e) (method_from-code m)),
  (content_from-ok v c, λ e. rw (← e) (content_from-code c)),
)

pub code_bounds :
    (p : PredictorId) (m : CompressionMethod) (c : ContentType)
    → (predictor_code p < 2 ^ 16) × (method_code m < 256) × (content_code c < 2 ^ 16)
code_bounds p m c = ground arith
