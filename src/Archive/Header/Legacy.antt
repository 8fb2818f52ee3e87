-- ===== src/Archive/Header/Legacy.antt =====
-- Headers behind the legacy magic number.
use aether_arch.Base.{
  ℕ, ◌≡◌, ◌≢◌, refl, List, ◌++◌, ◌∙◌, length, take, false, bytes_eq, bytes_eq_refl, bytes_eq→eq,
  Bool-cases, inl, inr, length-take, arith,
}
use aether_arch.Errors.{ok, err, header_integrity_mismatch}
use aether_arch.Archive.Crates.{Crates}
use aether_arch.Archive.Codes.{legacy_magic}
use aether_arch.Archive.Header.{ArchiveHeader, field_bytes, compute_blake3_tag, read_archive_header}
use aether_arch.Archive.Header.RoundTrip.{
  IsHeader, IsWithinLimits, read_fields, length-tag, check_limits_within,
}

module _ (c : Crates) where
  -- The tag of the 40 bytes that stand before it in a legacy archive.
  abbrev pub legacy_tag : ArchiveHeader → List ℕ
  legacy_tag h = take 8 (c.blake3 (legacy_magic ++ field_bytes c h))

  -- A header whose fields fit and whose counts are within the limits, behind the legacy magic number, is
  -- accepted with the tag that the current magic bytes would have, and refused with the tag of the bytes
  -- that it stands behind, wherever the two differ.
  pub legacy_header :
      (h : ArchiveHeader) (rest : List ℕ)
      → IsHeader h
      → IsWithinLimits h
      → legacy_tag h ≢ compute_blake3_tag c h
      → (read_archive_header c
            (legacy_magic ++ (field_bytes c h ++ (compute_blake3_tag c h ++ rest)))
          ≡ ok (h, rest))
        × (read_archive_header c (legacy_magic ++ (field_bytes c h ++ (legacy_tag h ++ rest)))
            ≡ err header_integrity_mismatch)
  legacy_header h rest fits within differ = (
    read_fields c legacy_magic (compute_blake3_tag c h) h rest refl (unfold bytes_eq in refl)
          (length-tag c h) fits
        ∙ rw (bytes_eq_refl (compute_blake3_tag c h)) (rw (check_limits_within h within)),
    read_fields c legacy_magic (legacy_tag h) h rest refl (unfold bytes_eq in refl) full fits
        ∙ rw unequal,
  )
    where
      full : length (legacy_tag h) ≡ 8
      full =
          let hashed = legacy_magic ++ field_bytes c h in
          omega (arith, length-take 8 (c.blake3 hashed), c.blake3_length hashed)

      unequal : bytes_eq (legacy_tag h) (compute_blake3_tag c h) ≡ false
      unequal = elim (Bool-cases (bytes_eq (legacy_tag h) (compute_blake3_tag c h))) [
        | inl e ↦ absurd (differ (bytes_eq→eq _ _ e))
        | inr e ↦ e
      ]
