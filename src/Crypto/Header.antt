-- ===== src/Crypto/Header.antt =====
-- The encryption header that is written is read back, and one that is read is within the limits.
use aether_arch.Base.{
  ℕ, ◌*◌, ◌≤◌, ◌≡◌, refl, true, List, ◌++◌, append_assoc, length, length-append, ◌==◌, arith,
}
use aether_arch.Errors.{ok}
use aether_arch.Archive.Crates.{Crates, read_u8, read_exact-append}
use aether_arch.Crypto.{
  CipherId, aes256_gcm, cha_cha20_poly1305, cipher_code, cipher_from_u8, EncryptionHeader,
  validate_argon2_params, header_version, write_encryption_header, read_encryption_header,
}

-- What the types of the fields and `validate_argon2_params` ask for.
pub record IsEncryptionHeader (h : EncryptionHeader) : Type 0 where
  pub version : h.version ≡ header_version
  pub salt : length h.salt ≡ 32
  pub m_low : 16 * 1024 ≤ h.m_cost
  pub m_high : h.m_cost ≤ 1048576
  pub t_low : 2 ≤ h.t_cost
  pub t_high : h.t_cost ≤ 16
  pub p_low : 1 ≤ h.p_cost
  pub p_high : h.p_cost ≤ 16
  pub master_nonce : length h.master_nonce ≡ 12
  pub verification_tag : length h.verification_tag ≡ 32

cipher_from-code : (cipher : CipherId) → cipher_from_u8 (cipher_code cipher) ≡ ok cipher
unfolding cipher_from_u8
cipher_from-code aes256_gcm = refl
cipher_from-code cha_cha20_poly1305 = refl

validated :
    (m t p : ℕ)
    → 16 * 1024 ≤ m
    → m ≤ 1048576
    → 2 ≤ t
    → t ≤ 16
    → 1 ≤ p
    → p ≤ 16
    → validate_argon2_params m t p ≡ ok tt
unfolding validate_argon2_params
validated m t p m0 m1 t0 t1 p0 p1 = ground arith

-- A header of version 1, with a salt and a tag of 32 bytes, a nonce of 12 and costs in the bounds, takes
-- 90 bytes, from which, with anything behind them, it is read back.
pub read_encryption_header-write_encryption_header :
    (c : Crates) (h : EncryptionHeader) (rest : List ℕ)
    → IsEncryptionHeader h
    → (length (write_encryption_header c h) ≡ 90)
      × (read_encryption_header c (write_encryption_header c h ++ rest) ≡ ok (h, rest))
unfolding write_encryption_header read_encryption_header read_u8
read_encryption_header-write_encryption_header c h rest i =
    let same : (h.version == header_version) ≡ true = ground (arith, i.version) in
    (
      omega (
        arith,
        length-append h.salt (
            c.u32.write h.m_cost
            ++ (c.u32.write h.t_cost
                ++ (c.u32.write h.p_cost ++ (h.master_nonce ++ h.verification_tag)))),
        length-append (c.u32.write h.m_cost) (
            c.u32.write h.t_cost
            ++ (c.u32.write h.p_cost ++ (h.master_nonce ++ h.verification_tag))),
        length-append (c.u32.write h.t_cost)
            (c.u32.write h.p_cost ++ (h.master_nonce ++ h.verification_tag)),
        length-append (c.u32.write h.p_cost) (h.master_nonce ++ h.verification_tag),
        length-append h.master_nonce h.verification_tag,
        c.u32.write_length h.m_cost,
        c.u32.write_length h.t_cost,
        c.u32.write_length h.p_cost,
        i.salt,
        i.master_nonce,
        i.verification_tag,
      ),
      simp append_assoc (
          rw (
            same,
            cipher_from-code h.cipher_id,
            read_exact-append 32 h.salt _ i.salt,
            c.u32.read-write h.m_cost _ (omega (arith, i.m_high)),
            c.u32.read-write h.t_cost _ (omega (arith, i.t_high)),
            c.u32.read-write h.p_cost _ (omega (arith, i.p_high)),
            read_exact-append 12 h.master_nonce _ i.master_nonce,
            read_exact-append 32 h.verification_tag rest i.verification_tag,
            validated h.m_cost h.t_cost h.p_cost i.m_low i.m_high i.t_low i.t_high i.p_low i.p_high,
          )),
    )
