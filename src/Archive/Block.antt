-- ===== src/Archive/Block.antt =====
-- aether-core/src/block.rs: block headers, block trailers and block index entries.
-- `write_to` returns the bytes that it writes; a reader is given the bytes still to be read.
pub mod RoundTrip
use aether_arch.Base.{
  ℕ, ◌+◌, ◌*◌, ◌^◌, ◌<◌, ◌≡◌, List, [], ◌∷◌, ◌++◌, if◌then◌else◌, ◌==◌, Bool, true, false, length,
  not,
}
use aether_arch.Errors.{
  Result, ok, err, ◌>>=◌, ◌>>◌, guard, invalid_block_magic, block_crc_mismatch,
}
use aether_arch.Archive.Crates.{Reader, Crates, read_exact, read_u8}
use aether_arch.Archive.Codes.{block_magic, CompressionMethod, method_code, method_from_u8}

pub record BlockHeader : Type 0 where
  pub block_id : ℕ
  pub solid_group_id : ℕ
  pub compression_method : CompressionMethod
  pub predictor_state_flag : Bool
  pub compressed_size : ℕ
  pub uncompressed_size : ℕ

pub record BlockTrailer : Type 0 where
  pub content_blake3 : List ℕ

pub record BlockIndexEntry : Type 0 where
  pub block_id : ℕ
  pub archive_offset : ℕ
  pub compressed_size : ℕ
  pub uncompressed_size : ℕ
  pub solid_group_id : ℕ

module _ (c : Crates) where
  -- The 24 bytes that the checksum covers, which are those before it: `to_le_bytes` writes a word as
  -- byteorder does.
  unfoldable pub header_bytes : BlockHeader → List ℕ
  header_bytes h =
      c.u32.write block_magic
      ++ (c.u32.write h.block_id
          ++ (c.u32.write h.solid_group_id
              ++ (method_code h.compression_method
                  ∷ (if h.predictor_state_flag then 1 else 0)
                  ∷ (c.u16.write 0
                      ++ (c.u32.write h.compressed_size ++ c.u32.write h.uncompressed_size)))))

  unfoldable pub header_crc : BlockHeader → ℕ
  unfolding header_bytes
  header_crc h = c.crc32 (header_bytes h)

  unfoldable pub write_header : BlockHeader → List ℕ
  write_header h = header_bytes h ++ c.u32.write (header_crc h)

  unfoldable pub read_header_at : ℕ → Reader BlockHeader
  read_header_at archive_offset bytes = do
    (magic, s) ← c.u32.read bytes
    guard (magic == block_magic) (invalid_block_magic archive_offset)
    (block_id, s) ← c.u32.read s
    (solid_group_id, s) ← c.u32.read s
    (method, s) ← read_u8 s
    compression_method ← method_from_u8 method
    (flag, s) ← read_u8 s
    (reserved, s) ← c.u16.read s
    (compressed_size, s) ← c.u32.read s
    (uncompressed_size, s) ← c.u32.read s
    (stored_crc, s) ← c.u32.read s
    let h : BlockHeader = record {
      block_id = block_id;
      solid_group_id = solid_group_id;
      compression_method = compression_method;
      predictor_state_flag = not (flag == 0);
      compressed_size = compressed_size;
      uncompressed_size = uncompressed_size;
    }
    guard (stored_crc == header_crc h) (block_crc_mismatch block_id)
    ok (h, s)

  unfoldable pub write_trailer : BlockTrailer → List ℕ
  write_trailer t = t.content_blake3 ++ c.u32.write (c.crc32 t.content_blake3)

  unfoldable pub read_trailer_with_id : ℕ → Reader BlockTrailer
  read_trailer_with_id block_id bytes = do
    (content_blake3, s) ← read_exact 32 bytes
    (stored_crc, s) ← c.u32.read s
    guard (stored_crc == c.crc32 content_blake3) (block_crc_mismatch block_id)
    ok (record { content_blake3 = content_blake3 }, s)

  unfoldable pub write_index_entry : BlockIndexEntry → List ℕ
  write_index_entry e =
      c.u32.write e.block_id
      ++ (c.u64.write e.archive_offset
          ++ (c.u32.write e.compressed_size
              ++ (c.u32.write e.uncompressed_size ++ c.u32.write e.solid_group_id)))

  unfoldable pub read_index_entry : Reader BlockIndexEntry
  read_index_entry bytes = do
    (block_id, s) ← c.u32.read bytes
    (archive_offset, s) ← c.u64.read s
    (compressed_size, s) ← c.u32.read s
    (uncompressed_size, s) ← c.u32.read s
    (solid_group_id, s) ← c.u32.read s
    ok (
      record {
        block_id = block_id;
        archive_offset = archive_offset;
        compressed_size = compressed_size;
        uncompressed_size = uncompressed_size;
        solid_group_id = solid_group_id;
      },
      s,
    )
