-- ===== src/Archive/Header.antt =====
-- aether-core/src/header.rs: the archive header, solid group entries and the footer.
-- `write_to` returns the bytes that it writes; a reader is given the bytes still to be read.
pub mod RoundTrip
pub mod Legacy
pub mod Limits
use aether_arch.Base.{
  ℕ, ◌+◌, ◌*◌, ◌^◌, ◌%◌, ◌<◌, ◌≡◌, List, [], ◌∷◌, ◌++◌, if◌then◌else◌, ◌==◌, leb, Bool, true, false,
  length, not, take, bytes_eq, ◌||◌,
}
use aether_arch.Errors.{
  Result, ok, err, ◌>>=◌, ◌>>◌, guard, invalid_magic, header_integrity_mismatch,
  resource_limit_exceeded, invalid_footer_magic, header_crc_mismatch,
}
use aether_arch.Archive.Crates.{Reader, Crates, read_exact, read_u8}
use aether_arch.Archive.Codes.{
  magic, legacy_magic, footer_magic, max_file_count, max_block_count, max_solid_group_count,
  PredictorId, predictor_code, predictor_from_u16, CompressionMethod, method_code, method_from_u8,
  ContentType, content_code, content_from_u16,
}

pub record ArchiveHeader : Type 0 where
  pub flags : ℕ
  pub predictor_id : PredictorId
  pub file_count : ℕ
  pub solid_group_count : ℕ
  pub block_count : ℕ
  pub file_table_offset : ℕ
  pub block_index_offset : ℕ

pub record SolidGroupEntry : Type 0 where
  pub group_id : ℕ
  pub content_type : ContentType
  pub compression_method : CompressionMethod
  pub first_block_idx : ℕ
  pub block_count : ℕ
  pub file_count : ℕ

pub record ArchiveFooter : Type 0 where
  pub block_index_offset : ℕ
  pub file_table_offset : ℕ
  pub block_count : ℕ
  pub file_count : ℕ

-- The limits on counts that come from an untrusted header.
unfoldable pub check_limits : ArchiveHeader → Result (Unit {0})
check_limits h = do
  guard (leb h.file_count max_file_count) resource_limit_exceeded
  guard (leb h.block_count max_block_count) resource_limit_exceeded
  guard (leb h.solid_group_count max_solid_group_count) resource_limit_exceeded

module _ (c : Crates) where
  -- Bytes 8 to 40, the fields.
  unfoldable pub field_bytes : ArchiveHeader → List ℕ
  field_bytes h =
      c.u16.write h.flags
      ++ (c.u16.write (predictor_code h.predictor_id)
          ++ (c.u32.write h.file_count
              ++ (c.u32.write h.solid_group_count
                  ++ (c.u32.write h.block_count
                      ++ (c.u64.write h.file_table_offset ++ c.u64.write h.block_index_offset)))))

  -- The first 8 bytes of the hash of the current magic bytes and the fields.
  unfoldable pub compute_blake3_tag : ArchiveHeader → List ℕ
  compute_blake3_tag h = take 8 (c.blake3 (magic ++ field_bytes h))

  unfoldable pub write_archive_header : ArchiveHeader → List ℕ
  write_archive_header h = magic ++ (field_bytes h ++ compute_blake3_tag h)

  unfoldable pub read_archive_header : Reader ArchiveHeader
  read_archive_header bytes = do
    (found, s) ← read_exact 8 bytes
    guard (bytes_eq found magic || bytes_eq found legacy_magic) invalid_magic
    (flags, s) ← c.u16.read s
    (predictor, s) ← c.u16.read s
    predictor_id ← predictor_from_u16 predictor
    (file_count, s) ← c.u32.read s
    (solid_group_count, s) ← c.u32.read s
    (block_count, s) ← c.u32.read s
    (file_table_offset, s) ← c.u64.read s
    (block_index_offset, s) ← c.u64.read s
    (stored_tag, s) ← read_exact 8 s
    let h : ArchiveHeader = record {
      flags = flags;
      predictor_id = predictor_id;
      file_count = file_count;
      solid_group_count = solid_group_count;
      block_count = block_count;
      file_table_offset = file_table_offset;
      block_index_offset = block_index_offset;
    }
    guard (bytes_eq stored_tag (compute_blake3_tag h)) header_integrity_mismatch
    check_limits h
    ok (h, s)

  unfoldable pub write_group : SolidGroupEntry → List ℕ
  write_group g =
      c.u32.write g.group_id
      ++ (c.u16.write (content_code g.content_type)
          ++ (c.u16.write (method_code g.compression_method)
              ++ (c.u32.write g.first_block_idx
                  ++ (c.u32.write g.block_count ++ (c.u32.write g.file_count ++ c.u32.write 0)))))

  -- `method_raw as u8` keeps the low byte.
  unfoldable pub read_group : Reader SolidGroupEntry
  read_group bytes = do
    (group_id, s) ← c.u32.read bytes
    (content, s) ← c.u16.read s
    content_type ← content_from_u16 content
    (method_raw, s) ← c.u16.read s
    compression_method ← method_from_u8 (method_raw % 256)
    (first_block_idx, s) ← c.u32.read s
    (block_count, s) ← c.u32.read s
    (file_count, s) ← c.u32.read s
    (reserved, s) ← c.u32.read s
    ok (
      record {
        group_id = group_id;
        content_type = content_type;
        compression_method = compression_method;
        first_block_idx = first_block_idx;
        block_count = block_count;
        file_count = file_count;
      },
      s,
    )

  unfoldable pub footer_bytes : ArchiveFooter → List ℕ
  footer_bytes f =
      c.u64.write f.block_index_offset
      ++ (c.u64.write f.file_table_offset
          ++ (c.u32.write f.block_count ++ c.u32.write f.file_count))

  unfoldable pub footer_crc : ArchiveFooter → ℕ
  footer_crc f = c.crc32 (footer_bytes f)

  unfoldable pub write_footer : ArchiveFooter → List ℕ
  write_footer f = footer_bytes f ++ (c.u32.write (footer_crc f) ++ c.u32.write footer_magic)

  unfoldable pub read_footer : Reader ArchiveFooter
  read_footer bytes = do
    (block_index_offset, s) ← c.u64.read bytes
    (file_table_offset, s) ← c.u64.read s
    (block_count, s) ← c.u32.read s
    (file_count, s) ← c.u32.read s
    (stored_crc, s) ← c.u32.read s
    (found, s) ← c.u32.read s
    guard (found == footer_magic) invalid_footer_magic
    let f : ArchiveFooter = record {
      block_index_offset = block_index_offset;
      file_table_offset = file_table_offset;
      block_count = block_count;
      file_count = file_count;
    }
    guard (stored_crc == footer_crc f) (header_crc_mismatch stored_crc (footer_crc f))
    ok (f, s)
