-- ===== src/Archive/Header/RoundTrip.antt =====
-- What is written is read back, and leaves what follows it.
use aether_arch.Base.{
  ℕ, ◌^◌, ◌%◌, ◌<◌, ◌≤◌, ◌≡◌, ◌≢◌, refl, List, ◌++◌, ◌==◌, true, false, length, arith, append_assoc,
  ==_refl, bytes_eq, bytes_eq_refl, ◌||◌, length-append, length-take, ◌∙◌,
}
use aether_arch.Errors.{
  ok, err, ◌>>◌, guard, invalid_footer_magic, header_crc_mismatch, header_integrity_mismatch,
}
use aether_arch.Archive.Crates.{Crates, read_exact-append}
use aether_arch.Archive.Codes.{
  magic, legacy_magic, footer_magic, max_file_count, max_block_count, max_solid_group_count,
  predictor_code, method_code, content_code, predictor_from-code, method_from-code,
  content_from-code, store, mixed, order0, code_bounds,
}
use aether_arch.Archive.Header.{
  ArchiveHeader, SolidGroupEntry, ArchiveFooter, field_bytes, compute_blake3_tag,
  write_archive_header, check_limits, read_archive_header, write_group, read_group, footer_bytes,
  footer_crc, write_footer, read_footer,
}

-- The fields fit the words that Rust keeps them in.
pub record IsHeader (h : ArchiveHeader) : Type 0 where
  pub flags : h.flags < 2 ^ 16
  pub file_count : h.file_count < 2 ^ 32
  pub solid_group_count : h.solid_group_count < 2 ^ 32
  pub block_count : h.block_count < 2 ^ 32
  pub file_table_offset : h.file_table_offset < 2 ^ 64
  pub block_index_offset : h.block_index_offset < 2 ^ 64

-- The counts are within the limits of the reader.
pub record IsWithinLimits (h : ArchiveHeader) : Type 0 where
  pub files : h.file_count ≤ max_file_count
  pub blocks : h.block_count ≤ max_block_count
  pub groups : h.solid_group_count ≤ max_solid_group_count

pub record IsGroup (g : SolidGroupEntry) : Type 0 where
  pub group_id : g.group_id < 2 ^ 32
  pub first_block_idx : g.first_block_idx < 2 ^ 32
  pub block_count : g.block_count < 2 ^ 32
  pub file_count : g.file_count < 2 ^ 32

pub record IsFooter (f : ArchiveFooter) : Type 0 where
  pub block_index_offset : f.block_index_offset < 2 ^ 64
  pub file_table_offset : f.file_table_offset < 2 ^ 64
  pub block_count : f.block_count < 2 ^ 32
  pub file_count : f.file_count < 2 ^ 32

pub check_limits_within : (h : ArchiveHeader) → IsWithinLimits h → check_limits h ≡ ok tt
unfolding check_limits
check_limits_within h w = ground arith

module _ (c : Crates) where
  pub length-tag : (h : ArchiveHeader) → length (compute_blake3_tag c h) ≡ 8
  unfolding compute_blake3_tag
  length-tag h =
      let hashed = magic ++ field_bytes c h in
      omega (arith, length-take 8 (c.blake3 hashed), c.blake3_length hashed)

  -- What `read_archive_header` makes of the bytes of a header behind either magic number, with some
  -- tag: all but the comparison of the tag and the limits is done.
  pub read_fields :
      (start tag : List ℕ) (h : ArchiveHeader) (rest : List ℕ)
      → length start ≡ 8
      → (bytes_eq start magic || bytes_eq start legacy_magic) ≡ true
      → length tag ≡ 8
      → IsHeader h
      → read_archive_header c (start ++ (field_bytes c h ++ (tag ++ rest))) ≡ (
          guard (bytes_eq tag (compute_blake3_tag c h)) header_integrity_mismatch
          >> (check_limits h >> ok (h, rest)))
  unfolding read_archive_header field_bytes
  read_fields start tag h rest hs known ht fits = simp append_assoc (
      rw (
        read_exact-append 8 start _ hs,
        known,
        c.u16.read-write h.flags _ (fits.flags),
        c.u16.read-write (predictor_code h.predictor_id) _
            (omega (arith, code_bounds h.predictor_id store mixed)),
        predictor_from-code h.predictor_id,
        c.u32.read-write h.file_count _ fits.file_count,
        c.u32.read-write h.solid_group_count _ fits.solid_group_count,
        c.u32.read-write h.block_count _ fits.block_count,
        c.u64.read-write h.file_table_offset _ fits.file_table_offset,
        c.u64.read-write h.block_index_offset _ fits.block_index_offset,
        read_exact-append 8 tag rest ht,
      ))

  -- A header with fields that fit their words and counts within the limits is read back from the
  -- bytes that it is written as, whatever bytes follow.
  pub read_archive_header-write_archive_header :
      (h : ArchiveHeader) (rest : List ℕ)
      → IsHeader h
      → IsWithinLimits h
      → read_archive_header c (write_archive_header c h ++ rest) ≡ ok (h, rest)
  read_archive_header-write_archive_header h rest fits within =
      unfold write_archive_header in
      rw
        (
          append_assoc magic (field_bytes c h ++ compute_blake3_tag c h) rest,
          append_assoc (field_bytes c h) (compute_blake3_tag c h) rest,
        )
        (read_fields magic (compute_blake3_tag c h) h rest refl (unfold bytes_eq in refl)
            (length-tag h) fits
          ∙ rw (bytes_eq_refl (compute_blake3_tag c h)) (rw (check_limits_within h within)))

  -- A solid group entry with fields that fit their words is read back, and leaves what follows it.
  pub read_group-write_group :
      (g : SolidGroupEntry) (rest : List ℕ)
      → IsGroup g
      → read_group c (write_group c g ++ rest) ≡ ok (g, rest)
  unfolding read_group write_group
  read_group-write_group g rest fits =
      let bounds = code_bounds order0 g.compression_method g.content_type in
      let low : method_code g.compression_method % 256 ≡ method_code g.compression_method =
        omega (arith, bounds) in
      simp append_assoc (
        rw (
          c.u32.read-write g.group_id _ fits.group_id,
          c.u16.read-write (content_code g.content_type) _ bounds.2,
          content_from-code g.content_type,
          c.u16.read-write (method_code g.compression_method) _ (omega (arith, bounds)),
          low,
          method_from-code g.compression_method,
          c.u32.read-write g.first_block_idx _ fits.first_block_idx,
          c.u32.read-write g.block_count _ fits.block_count,
          c.u32.read-write g.file_count _ fits.file_count,
          c.u32.read-write 0 rest (omega arith),
        ))

  footer_crc_bound : (f : ArchiveFooter) → footer_crc c f < 256 ^ 4
  unfolding footer_crc
  footer_crc_bound f = omega (arith, c.crc32_bound (footer_bytes c f))

  -- What `read_footer` makes of the fields of a footer and two more words.
  read_footer_fields :
      (f : ArchiveFooter) (crc word : ℕ) (rest : List ℕ)
      → IsFooter f
      → crc < 2 ^ 32
      → word < 2 ^ 32
      → read_footer c (footer_bytes c f ++ (c.u32.write crc ++ (c.u32.write word ++ rest))) ≡ (
          guard (word == footer_magic) invalid_footer_magic
          >> (guard (crc == footer_crc c f) (header_crc_mismatch crc (footer_crc c f))
              >> ok (f, rest)))
  unfolding read_footer footer_bytes
  read_footer_fields f crc word rest fits hc hw = simp append_assoc (
      rw (
        c.u64.read-write f.block_index_offset _ fits.block_index_offset,
        c.u64.read-write f.file_table_offset _ fits.file_table_offset,
        c.u32.read-write f.block_count _ fits.block_count,
        c.u32.read-write f.file_count _ fits.file_count,
        c.u32.read-write crc _ (omega arith),
        c.u32.read-write word rest (omega arith),
      ))

  -- A footer with fields that fit their words is read back, and leaves what follows it.
  pub read_footer-write_footer :
      (f : ArchiveFooter) (rest : List ℕ)
      → IsFooter f
      → read_footer c (write_footer c f ++ rest) ≡ ok (f, rest)
  unfolding write_footer
  read_footer-write_footer f rest fits = simp append_assoc (
      read_footer_fields f (footer_crc c f) footer_magic rest fits (footer_crc_bound f)
        (omega arith)
      ∙ rw (==_refl (footer_crc c f)))

  -- The two last words of a footer with fields that fit are checked, the magic number first: another
  -- magic number is refused whatever the checksum's word is, the right one included, and with the right
  -- magic number any other checksum is reported with the computed one.
  pub read_footer-rejects :
      (f : ArchiveFooter) (word any_crc crc : ℕ) (rest : List ℕ)
      → IsFooter f
      → word < 2 ^ 32
      → word ≢ footer_magic
      → any_crc < 2 ^ 32
      → crc < 2 ^ 32
      → crc ≢ footer_crc c f
      → (read_footer c (footer_bytes c f ++ (c.u32.write any_crc ++ (c.u32.write word ++ rest)))
          ≡ err invalid_footer_magic)
        × (read_footer c
              (footer_bytes c f ++ (c.u32.write crc ++ (c.u32.write footer_magic ++ rest)))
            ≡ err (header_crc_mismatch crc (footer_crc c f)))
  read_footer-rejects f word any_crc crc rest fits hw not_magic hany hc not_crc =
      let magic_test : (word == footer_magic) ≡ false = ground arith in
      let crc_test : (crc == footer_crc c f) ≡ false = ground arith in
      (
        read_footer_fields f any_crc word rest fits hany hw ∙ rw magic_test,
        read_footer_fields f crc footer_magic rest fits hc (omega arith) ∙ rw crc_test,
      )

  -- The sizes that the format reserves: 48 bytes for the header, 24 for a group, 32 for the footer.
  pub archive_sizes :
      (h : ArchiveHeader) (g : SolidGroupEntry) (f : ArchiveFooter)
      → (length (write_archive_header c h) ≡ 48)
        × (length (write_group c g) ≡ 24)
        × (length (write_footer c f) ≡ 32)
  unfolding write_archive_header field_bytes write_group write_footer footer_bytes
  archive_sizes h g f = (
    simp (length-append, c.u32.write_length, c.u16.write_length, c.u64.write_length, length-tag h)
        (omega arith),
    simp (length-append, c.u32.write_length, c.u16.write_length) (omega arith),
    simp (length-append, c.u32.write_length, c.u64.write_length) (omega arith),
  )
