-- ===== src/Errors.antt =====
-- aether-core/src/error.rs: the errors of the library, and `Result`.
-- The text of a message is left out; every other datum of an error is kept.
use aether_arch.Base.{ℕ, Bool, true, false, ◌≡◌, refl, ◌⊎◌, inl, inr}

pub data AetherError : Type 0 where
  invalid_magic : AetherError
  unsupported_version : ℕ → ℕ → AetherError
  checksum_mismatch : ℕ → AetherError
  header_crc_mismatch : ℕ → ℕ → AetherError
  block_crc_mismatch : ℕ → AetherError
  invalid_block_magic : ℕ → AetherError
  invalid_footer_magic : AetherError
  compression : AetherError
  decompression : AetherError
  encryption : AetherError
  decryption : AetherError
  predictor : AetherError
  io : AetherError
  block_not_found : ℕ → AetherError
  file_not_found : AetherError
  truncated_archive : ℕ → ℕ → AetherError
  unknown_compression_method : ℕ → AetherError
  unknown_predictor_id : ℕ → AetherError
  unknown_content_type : ℕ → AetherError
  resource_limit_exceeded : AetherError
  path_traversal : AetherError
  cloud_storage : AetherError
  invalid_cloud_path : AetherError
  invalid_cloud_url : AetherError
  nonce_mismatch : ℕ → AetherError
  password_verification_failed : AetherError
  invalid_utf8_path : AetherError
  header_integrity_mismatch : AetherError
  file_already_exists : AetherError

-- `Result<T, AetherError>`
pub data Result {ℓ} (T : Type ℓ) : Type ℓ where
  err : AetherError → Result T
  ok : T → Result T

-- `if !test { return Err(e) }`
abbrev pub guard : Bool → AetherError → Result (Unit {0})
guard false reason = err reason
guard true reason = ok tt

-- The `?` operator.
abbrev pub ◌>>=◌ {ℓ κ} : {T : Type ℓ} {U : Type κ} → Result T → (T → Result U) → Result U
err reason >>= next = err reason
ok value >>= next = next value

infixl 5 ◌>>=◌
infixl 5 ◌>>◌
abbrev pub ◌>>◌ {ℓ} : {U : Type ℓ} → Result (Unit {0}) → Result U → Result U
first >> second = first >>= λ _. second

-- To split on a computed result and keep the equation.
pub Result-cases {ℓ} :
    {T : Type ℓ} (m : Result T)
    → ((reason : AetherError) × (m ≡ err reason)) ⊎ ((value : T) × (m ≡ ok value))
Result-cases (err reason) = inl (reason, refl)
Result-cases (ok value) = inr (value, refl)
