-- ===== src/Archive/Block/RoundTrip.antt =====
-- What is written is read back, and leaves what follows it.
use aether_arch.Base.{
  ℕ, ◌^◌, ◌<◌, ◌≡◌, refl, List, ◌++◌, if◌then◌else◌, ◌==◌, Bool, true, false, length, arith,
  append_assoc, not, ◌≢◌, length-append, ==_refl,
}
use aether_arch.Errors.{ok, err, invalid_block_magic, block_crc_mismatch}
use aether_arch.Archive.Crates.{Crates, read_exact-append, read_u8}
use aether_arch.Archive.Codes.{block_magic, method_from-code}
use aether_arch.Archive.Block.{
  BlockHeader, BlockTrailer, BlockIndexEntry, header_bytes, header_crc, write_header,
  read_header_at, write_trailer, read_trailer_with_id, write_index_entry, read_index_entry,
}

-- The fields fit the words that Rust keeps them in.
pub record IsHeader (h : BlockHeader) : Type 0 where
  pub block_id : h.block_id < 2 ^ 32
  pub solid_group_id : h.solid_group_id < 2 ^ 32
  pub compressed_size : h.compressed_size < 2 ^ 32
  pub uncompressed_size : h.uncompressed_size < 2 ^ 32

pub record IsIndexEntry (e : BlockIndexEntry) : Type 0 where
  pub block_id : e.block_id < 2 ^ 32
  pub archive_offset : e.archive_offset < 2 ^ 64
  pub compressed_size : e.compressed_size < 2 ^ 32
  pub uncompressed_size : e.uncompressed_size < 2 ^ 32
  pub solid_group_id : e.solid_group_id < 2 ^ 32

module _ (c : Crates) where
  flag_back : (b : Bool) → not ((if b then 1 else 0) == 0) ≡ b
  flag_back true = refl
  flag_back false = refl

  header_crc_bound : (h : BlockHeader) → header_crc c h < 256 ^ 4
  unfolding header_crc
  header_crc_bound h = omega (arith, c.crc32_bound (header_bytes c h))

  -- A block header with fields that fit their words is read back from the bytes that it is written
  -- as, whatever its method and flag and whatever bytes follow, at any offset.
  pub read_header_at-write_header :
      (h : BlockHeader) (offset : ℕ) (rest : List ℕ)
      → IsHeader h
      → read_header_at c offset (write_header c h ++ rest) ≡ ok (h, rest)
  unfolding read_header_at write_header header_bytes read_u8
  read_header_at-write_header h offset rest fits = simp append_assoc (
      rw
        (
          c.u32.read-write block_magic _ (omega arith),
          c.u32.read-write h.block_id _ fits.block_id,
          c.u32.read-write h.solid_group_id _ fits.solid_group_id,
          method_from-code h.compression_method,
          c.u16.read-write 0 _ (omega arith),
          c.u32.read-write h.compressed_size _ fits.compressed_size,
          c.u32.read-write h.uncompressed_size _ fits.uncompressed_size,
          c.u32.read-write (header_crc c h) rest (header_crc_bound h),
        )
        (rw (flag_back h.predictor_state_flag) (rw (==_refl (header_crc c h)))))

  -- Where the magic number should stand, any other word is refused with the offset, whatever follows. A
  -- header with fields that fit, the right magic number and any last word but the checksum of its fields
  -- is refused with the block's number, whatever follows.
  pub read_header_at-rejects :
      (h : BlockHeader) (offset word crc : ℕ) (rest : List ℕ)
      → IsHeader h
      → word < 2 ^ 32
      → word ≢ block_magic
      → crc < 2 ^ 32
      → crc ≢ header_crc c h
      → (read_header_at c offset (c.u32.write word ++ rest) ≡ err (invalid_block_magic offset))
        × (read_header_at c offset (header_bytes c h ++ (c.u32.write crc ++ rest))
            ≡ err (block_crc_mismatch h.block_id))
  unfolding read_header_at header_bytes read_u8
  read_header_at-rejects h offset word crc rest fits small not_magic small_crc not_crc =
      let magic_test : (word == block_magic) ≡ false = ground arith in
      let crc_test : (crc == header_crc c h) ≡ false = ground arith in
      (
        rw (c.u32.read-write word rest (omega arith)) (rw magic_test),
        simp append_assoc (
            rw
              (
                c.u32.read-write block_magic _ (omega arith),
                c.u32.read-write h.block_id _ fits.block_id,
                c.u32.read-write h.solid_group_id _ fits.solid_group_id,
                method_from-code h.compression_method,
                c.u16.read-write 0 _ (omega arith),
                c.u32.read-write h.compressed_size _ fits.compressed_size,
                c.u32.read-write h.uncompressed_size _ fits.uncompressed_size,
                c.u32.read-write crc rest (omega arith),
              )
              (rw (flag_back h.predictor_state_flag) (rw crc_test))),
      )

  -- A block trailer with a hash of 32 bytes is read back, and leaves what follows it.
  pub read_trailer-write_trailer :
      (t : BlockTrailer) (block_id : ℕ) (rest : List ℕ)
      → length t.content_blake3 ≡ 32
      → read_trailer_with_id c block_id (write_trailer c t ++ rest) ≡ ok (t, rest)
  unfolding read_trailer_with_id write_trailer
  read_trailer-write_trailer t block_id rest full =
      rw (append_assoc t.content_blake3 (c.u32.write (c.crc32 t.content_blake3)) rest) (
        rw
          (
            read_exact-append 32 t.content_blake3 _ full,
            c.u32.read-write (c.crc32 t.content_blake3) rest
                (omega (arith, c.crc32_bound t.content_blake3)),
          )
          (rw (==_refl (c.crc32 t.content_blake3))))

  -- A trailer whose last word is not the checksum of its hash is refused, with the number that the
  -- reader was given.
  pub read_trailer-rejects :
      (t : BlockTrailer) (block_id word : ℕ) (rest : List ℕ)
      → length t.content_blake3 ≡ 32
      → word < 2 ^ 32
      → word ≢ c.crc32 t.content_blake3
      → read_trailer_with_id c block_id (t.content_blake3 ++ (c.u32.write word ++ rest))
        ≡ err (block_crc_mismatch block_id)
  unfolding read_trailer_with_id
  read_trailer-rejects t block_id word rest full small ne =
      let test : (word == c.crc32 t.content_blake3) ≡ false = ground arith in
      rw (read_exact-append 32 t.content_blake3 _ full, c.u32.read-write word rest (omega arith))
        (rw test)

  -- A block index entry with fields that fit their words is read back, and leaves what follows it.
  pub read_index_entry-write_index_entry :
      (e : BlockIndexEntry) (rest : List ℕ)
      → IsIndexEntry e
      → read_index_entry c (write_index_entry c e ++ rest) ≡ ok (e, rest)
  unfolding read_index_entry write_index_entry
  read_index_entry-write_index_entry e rest fits = simp append_assoc (
      rw (
        c.u32.read-write e.block_id _ fits.block_id,
        c.u64.read-write e.archive_offset _ fits.archive_offset,
        c.u32.read-write e.compressed_size _ fits.compressed_size,
        c.u32.read-write e.uncompressed_size _ fits.uncompressed_size,
        c.u32.read-write e.solid_group_id rest fits.solid_group_id,
      ))

  -- The sizes that the format reserves: 28 bytes for a header, 36 for a trailer, 24 for an index entry.
  pub block_sizes :
      (h : BlockHeader) (t : BlockTrailer) (e : BlockIndexEntry)
      → length t.content_blake3 ≡ 32
      → (length (write_header c h) ≡ 28)
        × (length (write_trailer c t) ≡ 36)
        × (length (write_index_entry c e) ≡ 24)
  unfolding write_header header_bytes write_trailer write_index_entry
  block_sizes h t e full = (
    simp (length-append, c.u32.write_length, c.u16.write_length) (omega arith),
    simp (length-append, c.u32.write_length, full) (omega arith),
    simp (length-append, c.u32.write_length, c.u64.write_length) (omega arith),
  )
