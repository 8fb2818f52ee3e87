-- ===== src/Crypto/Blocks.antt =====
-- An encrypted block is decrypted to what it was, and one whose nonce is another's is refused.
use aether_arch.Base.{
  ℕ, ◌+◌, ◌/◌, ◌%◌, ◌^◌, ◌≤◌, ◌<◌, ◌≡◌, refl, sym, ◌∙◌, true, List, ◌++◌, length, length-append,
  length-take_le, replicate, take-append, drop-append, leb, Bool-cases, Option-cases, some, inl,
  inr, arith, bytes_eq_refl,
}
use aether_arch.Errors.{ok}
use aether_arch.Crypto.{
  CipherId, aes256_gcm, cha_cha20_poly1305, cipher_code, Primitives, nonce_domain, BlockCryptor,
  encrypt_metadata, decrypt_metadata, encrypted_metadata_block_id, max_block_plaintext_size, to_be,
  build_block_aad, validate_plaintext_size, derive_block_nonce, encrypt_block, decrypt_block,
}

-- What the primitives document: a hash of 32 bytes, and a cipher that seals what is not too long, with 16
-- bytes more, and opens what it has sealed.
pub record IsPrimitives (p : Primitives) : Type 0 where
  pub hash_length : (key xs : List ℕ) → length (p.keyed_hash key xs) ≡ 32
  pub seals :
      (cipher : CipherId) (key nonce xs aad : List ℕ)
      → length xs ≤ max_block_plaintext_size
      → (ys : List ℕ) × (p.seal cipher key nonce xs aad ≡ some ys)
  pub sealed :
      (cipher : CipherId) (key nonce xs aad ys : List ℕ)
      → p.seal cipher key nonce xs aad ≡ some ys
      → (length ys ≡ length xs + 16) × (p.unseal cipher key nonce ys aad ≡ some xs)

-- Two blocks with the same authenticated data have the same cipher and the same number.
pub build_block_aad_unique :
    (cipher cipher' : CipherId) (block_id block_id' : ℕ)
    → block_id < 2 ^ 32
    → block_id' < 2 ^ 32
    → build_block_aad cipher block_id ≡ build_block_aad cipher' block_id'
    → (cipher ≡ cipher') × (block_id ≡ block_id')
build_block_aad_unique cipher cipher' x y hx hy e =
    let code : cipher_code cipher ≡ cipher_code cipher' = cc e in
    let a : x / 2 ^ 24 % 256 ≡ y / 2 ^ 24 % 256 = cc e in
    let b : x / 2 ^ 16 % 256 ≡ y / 2 ^ 16 % 256 = cc e in
    let c : x / 2 ^ 8 % 256 ≡ y / 2 ^ 8 % 256 = cc e in
    let d : x % 256 ≡ y % 256 = cc e in (codes cipher cipher' code, omega (arith, a, b, c, d))
  where
    codes : (s t : CipherId) → cipher_code s ≡ cipher_code t → s ≡ t
    codes aes256_gcm aes256_gcm h = refl
    codes aes256_gcm cha_cha20_poly1305 h = absurd (omega arith)
    codes cha_cha20_poly1305 aes256_gcm h = absurd (omega arith)
    codes cha_cha20_poly1305 cha_cha20_poly1305 h = refl

module _ (p : Primitives) (law : IsPrimitives p) where
  length-nonce :
      (master_nonce : List ℕ) (block_id : ℕ)
      → length (derive_block_nonce p master_nonce block_id) ≡ 12
  length-nonce master_nonce block_id = length-take_le 12 _ (
      omega
        (arith, law.hash_length (master_nonce ++ replicate 20 0) (nonce_domain ++ to_be block_id)))

  -- The block behind its nonce, as the decoder reads it.
  opened :
      (cipher : CipherId) (key master_nonce : List ℕ) (block_id : ℕ) (xs ys : List ℕ)
      → 16 ≤ length ys
      → p.unseal cipher key
          (derive_block_nonce p master_nonce block_id)
          ys
          (build_block_aad cipher block_id)
        ≡ some xs
      → decrypt_block p cipher key master_nonce block_id
          (derive_block_nonce p master_nonce block_id ++ ys)
        ≡ ok xs
  unfolding decrypt_block
  opened cipher key master_nonce block_id xs ys long e =
      let nonce = derive_block_nonce p master_nonce block_id in
      let size = length-nonce master_nonce block_id in
      let enough : leb 28 (length (nonce ++ ys)) ≡ true =
        ground (arith, length-append nonce ys, size, long) in
      rw
        (enough, take-append 12 nonce ys size, drop-append 12 nonce ys size, bytes_eq_refl nonce, e)
        refl

  encrypted_ok :
      (cipher : CipherId) (key master_nonce : List ℕ) (block_id : ℕ) (xs : List ℕ)
      → length xs ≤ max_block_plaintext_size
      → (encrypted : List ℕ) × (encrypt_block p cipher key master_nonce block_id xs ≡ ok encrypted)
  unfolding encrypt_block validate_plaintext_size
  encrypted_ok cipher key master_nonce block_id xs small =
      let nonce = derive_block_nonce p master_nonce block_id in
      let (ys, e) = law.seals cipher key nonce xs (build_block_aad cipher block_id) small in
      let fits : leb (length xs) max_block_plaintext_size ≡ true = ground (arith, small) in
      (nonce ++ ys, rw (encrypt_block, fits, e) refl)

  blocks_back :
      (cipher : CipherId) (key master_nonce : List ℕ) (block_id : ℕ) (xs encrypted : List ℕ)
      → encrypt_block p cipher key master_nonce block_id xs ≡ ok encrypted
      → (length encrypted ≡ length xs + 28)
        × (decrypt_block p cipher key master_nonce block_id encrypted ≡ ok xs)
  unfolding encrypt_block validate_plaintext_size
  blocks_back cipher key master_nonce block_id xs encrypted done =
      let nonce = derive_block_nonce p master_nonce block_id in
      elim (Bool-cases (leb (length xs) max_block_plaintext_size)) [
        | inr large ↦ absurd (cc (rw (encrypt_block, large) at done))
        | inl fits ↦
            elim (Option-cases (p.seal cipher key nonce xs (build_block_aad cipher block_id))) [
              | inl failed ↦ absurd (cc (rw (encrypt_block, fits, failed) at done))
              | inr (ys, e) ↦
                  let same : nonce ++ ys ≡ encrypted = cc (rw (encrypt_block, fits, e) at done) in
                  let (size, back) =
                    law.sealed cipher key nonce xs (build_block_aad cipher block_id) ys e in
                  rw (sym same) (
                    length-append nonce ys
                        ∙ omega (arith, length-nonce master_nonce block_id, size),
                    opened cipher key master_nonce block_id xs ys (omega (arith, size)) back,
                  )
            ]
      ]

-- With a hash of 32 bytes and a cipher that seals and opens: for at most 1 GiB, `encrypt_block` returns
-- 28 bytes more than the block has, and `decrypt_block` with the same cipher, key, master nonce and
-- number returns the block.
pub decrypt_block-encrypt_block :
    (p : Primitives) (cipher : CipherId) (key master_nonce : List ℕ) (block_id : ℕ) (xs : List ℕ)
    → IsPrimitives p
    → length xs ≤ max_block_plaintext_size
    → (encrypted : List ℕ) × (encrypt_block p cipher key master_nonce block_id xs ≡ ok encrypted)
      × (length encrypted ≡ length xs + 28)
      × (decrypt_block p cipher key master_nonce block_id encrypted ≡ ok xs)
decrypt_block-encrypt_block p cipher key master_nonce block_id xs law small =
    let (encrypted, done) = encrypted_ok p law cipher key master_nonce block_id xs small in
    let (size, back) = blocks_back p law cipher key master_nonce block_id xs encrypted done in
    (encrypted, done, size, back)

-- With such primitives: what `encrypt_metadata` returns, `decrypt_metadata` with the same cryptor decrypts,
-- and so does `decrypt_block` with its cipher, key and master nonce and the number kept for metadata.
pub decrypt_metadata-encrypt_metadata :
    (p : Primitives) (b : BlockCryptor) (xs encrypted : List ℕ)
    → IsPrimitives p
    → encrypt_metadata p b xs ≡ ok encrypted
    → (decrypt_metadata p b encrypted ≡ ok xs)
      × (decrypt_block p b.cipher_id b.key b.master_nonce encrypted_metadata_block_id encrypted
          ≡ ok xs)
unfolding encrypt_metadata decrypt_metadata encrypt_block decrypt_block
decrypt_metadata-encrypt_metadata p b xs encrypted law done =
    let back =
      (blocks_back p law b.cipher_id b.key b.master_nonce encrypted_metadata_block_id xs encrypted
        done).1 in
    (back, back)
