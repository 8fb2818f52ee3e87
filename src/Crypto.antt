-- ===== src/Crypto.antt =====
-- aether-core/src/crypto/mod.rs: the header of an encrypted archive, keys, nonces and blocks.
-- The keys that are overwritten when they are dropped, and the random salts and nonces, are left out.
pub mod Header
pub mod Blocks
pub mod Tests
use aether_arch.Base.{
  ℕ, ◌+◌, ◌*◌, ◌/◌, ◌%◌, ◌^◌, ◌≡◌, Bool, List, [], ◌∷◌, ◌++◌, length, replicate, take, drop, ltb,
  leb, ◌==◌, not, if◌then◌else◌, Option, none, some, bytes_eq,
}
use aether_arch.Errors.{
  Result, ok, err, encryption, decryption, nonce_mismatch, password_verification_failed, ◌>>=◌,
  ◌>>◌, guard,
}
use aether_arch.Archive.Crates.{Reader, Crates, read_exact, read_u8}

pub data CipherId : Type 0 where
  aes256_gcm cha_cha20_poly1305 : CipherId

-- `self as u8`
abbrev pub cipher_code : CipherId → ℕ
cipher_code aes256_gcm = 0
cipher_code cha_cha20_poly1305 = 1

unfoldable pub cipher_from_u8 : ℕ → Result CipherId
cipher_from_u8 v =
    if v == 0 then ok aes256_gcm else if v == 1 then ok cha_cha20_poly1305 else err decryption

pub record EncryptionHeader : Type 0 where
  pub version : ℕ
  pub cipher_id : CipherId
  pub salt : List ℕ
  pub m_cost : ℕ
  pub t_cost : ℕ
  pub p_cost : ℕ
  pub master_nonce : List ℕ
  pub verification_tag : List ℕ

unfoldable pub validate_argon2_params : ℕ → ℕ → ℕ → Result (Unit {0})
validate_argon2_params m_cost t_cost p_cost = do
  guard (leb (16 * 1024) m_cost) encryption
  guard (leb m_cost 1048576) encryption
  guard (leb 2 t_cost) encryption
  guard (leb t_cost 16) encryption
  guard (leb 1 p_cost) encryption
  guard (leb p_cost 16) encryption

unfoldable pub validate_encryption_password : List ℕ → Result (Unit {0})
validate_encryption_password password = do
  guard (not (length password == 0)) encryption
  guard (leb 8 (length password)) encryption

abbrev pub header_version : ℕ
header_version = 1

module _ (c : Crates) where
  unfoldable pub write_encryption_header : EncryptionHeader → List ℕ
  write_encryption_header h =
      h.version
      ∷ cipher_code h.cipher_id
      ∷ (h.salt
          ++ (c.u32.write h.m_cost
              ++ (c.u32.write h.t_cost
                  ++ (c.u32.write h.p_cost ++ (h.master_nonce ++ h.verification_tag)))))

  unfoldable pub read_encryption_header : Reader EncryptionHeader
  unfolding cipher_from_u8 validate_argon2_params
  read_encryption_header bytes = do
    (version, s) ← read_u8 bytes
    guard (version == header_version) decryption
    (cipher, s) ← read_u8 s
    cipher_id ← cipher_from_u8 cipher
    (salt, s) ← read_exact 32 s
    (m_cost, s) ← c.u32.read s
    (t_cost, s) ← c.u32.read s
    (p_cost, s) ← c.u32.read s
    (master_nonce, s) ← read_exact 12 s
    (verification_tag, s) ← read_exact 32 s
    validate_argon2_params m_cost t_cost p_cost
    ok (
      record {
        version = version;
        cipher_id = cipher_id;
        salt = salt;
        m_cost = m_cost;
        t_cost = t_cost;
        p_cost = p_cost;
        master_nonce = master_nonce;
        verification_tag = verification_tag;
      },
      s,
    )

-- `blake3::keyed_hash`, Argon2id and the two ciphers; none where they fail. A cipher takes the key, the
-- nonce, the message and the data that it authenticates.
pub record Primitives : Type 0 where
  pub keyed_hash : List ℕ → List ℕ → List ℕ
  pub argon2id : ℕ → ℕ → ℕ → List ℕ → List ℕ → Option (List ℕ)
  pub seal : CipherId → List ℕ → List ℕ → List ℕ → List ℕ → Option (List ℕ)
  pub unseal : CipherId → List ℕ → List ℕ → List ℕ → List ℕ → Option (List ℕ)

abbrev pub nonce_domain : List ℕ
nonce_domain =
    b'A' ∷ b'e' ∷ b't' ∷ b'h' ∷ b'e' ∷ b'r' ∷ b'A' ∷ b'r' ∷ b'c' ∷ b'h' ∷ b'-' ∷ b'b' ∷ b'l' ∷ b'o'
    ∷ b'c' ∷ b'k' ∷ b'-' ∷ b'n' ∷ b'o' ∷ b'n' ∷ b'c' ∷ b'e' ∷ b'-' ∷ b'v' ∷ b'1' ∷ []

abbrev pub verification_key_domain : List ℕ
verification_key_domain =
    b'A' ∷ b'e' ∷ b't' ∷ b'h' ∷ b'e' ∷ b'r' ∷ b'A' ∷ b'r' ∷ b'c' ∷ b'h' ∷ b'-' ∷ b'v' ∷ b'e' ∷ b'r'
    ∷ b'i' ∷ b'f' ∷ b'i' ∷ b'c' ∷ b'a' ∷ b't' ∷ b'i' ∷ b'o' ∷ b'n' ∷ b'-' ∷ b'k' ∷ b'e' ∷ b'y'
    ∷ b'-' ∷ b'v' ∷ b'1' ∷ []

abbrev pub verification_domain : List ℕ
verification_domain =
    b'A' ∷ b'e' ∷ b't' ∷ b'h' ∷ b'e' ∷ b'r' ∷ b'A' ∷ b'r' ∷ b'c' ∷ b'h' ∷ b'-' ∷ b'p' ∷ b'a' ∷ b's'
    ∷ b's' ∷ b'w' ∷ b'o' ∷ b'r' ∷ b'd' ∷ b'-' ∷ b'v' ∷ b'e' ∷ b'r' ∷ b'i' ∷ b'f' ∷ b'i' ∷ b'c'
    ∷ b'a' ∷ b't' ∷ b'i' ∷ b'o' ∷ b'n' ∷ b'-' ∷ b'v' ∷ b'1' ∷ []

pub record BlockCryptor : Type 0 where
  pub cipher_id : CipherId
  pub key : List ℕ
  pub master_nonce : List ℕ

abbrev pub max_block_plaintext_size : ℕ
max_block_plaintext_size = 1024 * 1024 * 1024

abbrev pub encrypted_metadata_block_id : ℕ
encrypted_metadata_block_id = 0xffff_ffff

-- `to_be_bytes` of a `u32`.
abbrev pub to_be : ℕ → List ℕ
to_be v = (v / 2 ^ 24 % 256) ∷ (v / 2 ^ 16 % 256) ∷ (v / 2 ^ 8 % 256) ∷ (v % 256) ∷ []

abbrev pub build_block_aad : CipherId → ℕ → List ℕ
build_block_aad cipher_id block_id = cipher_code cipher_id ∷ to_be block_id

unfoldable pub validate_plaintext_size : ℕ → Result (Unit {0})
validate_plaintext_size len = guard (leb len max_block_plaintext_size) encryption

module _ (p : Primitives) where
  unfoldable pub derive_key : List ℕ → List ℕ → ℕ → ℕ → ℕ → Result (List ℕ)
  unfolding validate_argon2_params
  derive_key password salt m_cost t_cost p_cost = do
    validate_argon2_params m_cost t_cost p_cost
    elim (p.argon2id m_cost t_cost p_cost password salt) [
      | none ↦ err encryption
      | some key ↦ ok key
    ]

  abbrev pub compute_verification_tag : List ℕ → List ℕ
  compute_verification_tag key =
      p.keyed_hash (p.keyed_hash key verification_key_domain) verification_domain

  unfoldable pub verify_password : EncryptionHeader → List ℕ → Result (Unit {0})
  unfolding bytes_eq
  verify_password h key =
      guard (bytes_eq h.verification_tag (compute_verification_tag key))
        password_verification_failed

  -- The master nonce, filled up to 32 bytes, is the key of the hash.
  abbrev pub derive_block_nonce : List ℕ → ℕ → List ℕ
  derive_block_nonce master_nonce block_id =
      take 12 (p.keyed_hash (master_nonce ++ replicate 20 0) (nonce_domain ++ to_be block_id))

  unfoldable pub encrypt_block : CipherId → List ℕ → List ℕ → ℕ → List ℕ → Result (List ℕ)
  unfolding validate_plaintext_size
  encrypt_block cipher_id key master_nonce block_id plaintext = do
    validate_plaintext_size (length plaintext)
    let nonce = derive_block_nonce master_nonce block_id
    elim (p.seal cipher_id key nonce plaintext (build_block_aad cipher_id block_id)) [
      | none ↦ err encryption
      | some ciphertext ↦ ok (nonce ++ ciphertext)
    ]

  unfoldable pub decrypt_block : CipherId → List ℕ → List ℕ → ℕ → List ℕ → Result (List ℕ)
  unfolding bytes_eq
  decrypt_block cipher_id key master_nonce block_id encrypted = do
    guard (leb 28 (length encrypted)) decryption
    let stored_nonce = take 12 encrypted
    guard (bytes_eq stored_nonce (derive_block_nonce master_nonce block_id))
        (nonce_mismatch block_id)
    elim (p.unseal cipher_id key stored_nonce (drop 12 encrypted)
        (build_block_aad cipher_id block_id)) [
          | none ↦ err decryption
          | some plaintext ↦ ok plaintext
        ]

  -- A cryptor keeps its cipher with the key expanded.
  unfoldable pub cryptor_encrypt : BlockCryptor → ℕ → List ℕ → Result (List ℕ)
  unfolding validate_plaintext_size
  cryptor_encrypt b block_id plaintext = do
    validate_plaintext_size (length plaintext)
    let nonce = derive_block_nonce b.master_nonce block_id
    elim (p.seal b.cipher_id b.key nonce plaintext (build_block_aad b.cipher_id block_id)) [
      | none ↦ err encryption
      | some ciphertext ↦ ok (nonce ++ ciphertext)
    ]

  unfoldable pub cryptor_decrypt : BlockCryptor → ℕ → List ℕ → Result (List ℕ)
  unfolding bytes_eq
  cryptor_decrypt b block_id encrypted = do
    guard (leb 28 (length encrypted)) decryption
    let stored_nonce = take 12 encrypted
    guard (bytes_eq stored_nonce (derive_block_nonce b.master_nonce block_id))
        (nonce_mismatch block_id)
    elim (p.unseal b.cipher_id b.key stored_nonce (drop 12 encrypted)
        (build_block_aad b.cipher_id block_id)) [
          | none ↦ err decryption
          | some plaintext ↦ ok plaintext
        ]

  unfoldable pub encrypt_metadata : BlockCryptor → List ℕ → Result (List ℕ)
  unfolding cryptor_encrypt
  encrypt_metadata b plaintext = cryptor_encrypt b encrypted_metadata_block_id plaintext

  unfoldable pub decrypt_metadata : BlockCryptor → List ℕ → Result (List ℕ)
  unfolding cryptor_decrypt
  decrypt_metadata b encrypted = cryptor_decrypt b encrypted_metadata_block_id encrypted
