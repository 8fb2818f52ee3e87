-- ===== src/Crypto/Tests.antt =====
-- A header and a block with primitives for which the laws hold.
use aether_arch.Base.{
  ℕ, ◌+◌, ◌≡◌, refl, sym, ap, ◌∙◌, List, [], ◌∷◌, ◌++◌, length, length-append, replicate, take,
  take-append, some, ◌-◌, arith,
}
use aether_arch.Errors.{ok}
use aether_arch.Archive.Crates.{sample_crates}
use aether_arch.Crypto.{
  aes256_gcm, cha_cha20_poly1305, Primitives, EncryptionHeader, write_encryption_header,
  read_encryption_header, encrypt_block, decrypt_block,
}
use aether_arch.Crypto.Header.{IsEncryptionHeader, read_encryption_header-write_encryption_header}
use aether_arch.Crypto.Blocks.{IsPrimitives, decrypt_block-encrypt_block, build_block_aad_unique}

abbrev primitives : Primitives
primitives = record {
  keyed_hash = λ key xs. replicate 32 7;
  argon2id = λ m t p password salt. some (replicate 32 1);
  seal = λ cipher key nonce xs aad. some (xs ++ replicate 16 9);
  unseal = λ cipher key nonce ys aad. some (take (length ys - 16) ys);
}

primitives-IsPrimitives : IsPrimitives primitives
primitives-IsPrimitives = record {
  hash_length = λ key xs. refl;
  seals = λ cipher key nonce xs aad small. (xs ++ replicate 16 9, refl);
  sealed = λ cipher key nonce xs aad ys e. opens xs ys (cc e);
}
  where
    opens :
        (xs ys : List ℕ)
        → xs ++ replicate 16 9 ≡ ys
        → (length ys ≡ length xs + 16) × (some (take (length ys - 16) ys) ≡ some xs)
    opens xs ys e =
        let size : length ys ≡ length xs + 16 =
          ap length (sym e) ∙ length-append xs (replicate 16 9) in
        let n : length ys - 16 ≡ length xs = omega (arith, size) in
        (
          size,
          ap some (
              ap (λ k. take k ys) n
              ∙ ap (take (length xs)) (sym e)
              ∙ take-append (length xs) xs (replicate 16 9) refl),
        )

decrypt_block-encrypt_block_example :
    (encrypted : List ℕ) × (encrypt_block primitives aes256_gcm
        (replicate 32 1)
        (replicate 12 5)
        3
        (1 ∷ 2 ∷ 3 ∷ [])
      ≡ ok encrypted)
    × (length encrypted ≡ 3 + 28)
    × (decrypt_block primitives aes256_gcm (replicate 32 1) (replicate 12 5) 3 encrypted
        ≡ ok (1 ∷ 2 ∷ 3 ∷ []))
decrypt_block-encrypt_block_example =
    decrypt_block-encrypt_block primitives aes256_gcm (replicate 32 1) (replicate 12 5) 3
      (1 ∷ 2 ∷ 3 ∷ []) primitives-IsPrimitives (omega arith)

build_block_aad_unique_example : (aes256_gcm ≡ aes256_gcm) × (◌≡◌ {A = ℕ} 70000 70000)
build_block_aad_unique_example =
    build_block_aad_unique aes256_gcm aes256_gcm 70000 70000 (omega arith) (omega arith) refl

abbrev header : EncryptionHeader
header = record {
  version = 1;
  cipher_id = cha_cha20_poly1305;
  salt = replicate 32 3;
  m_cost = 65536;
  t_cost = 3;
  p_cost = 4;
  master_nonce = replicate 12 5;
  verification_tag = replicate 32 7;
}

header-IsEncryptionHeader : IsEncryptionHeader header
header-IsEncryptionHeader = record {
  version = refl;
  salt = refl;
  m_low = omega arith;
  m_high = omega arith;
  t_low = omega arith;
  t_high = omega arith;
  p_low = omega arith;
  p_high = omega arith;
  master_nonce = refl;
  verification_tag = refl;
}

read_encryption_header-write_encryption_header_example :
    (length (write_encryption_header sample_crates header) ≡ 90)
    × (read_encryption_header sample_crates
          (write_encryption_header sample_crates header ++ (1 ∷ []))
        ≡ ok (header, 1 ∷ []))
read_encryption_header-write_encryption_header_example =
    read_encryption_header-write_encryption_header sample_crates header (1 ∷ [])
      header-IsEncryptionHeader
