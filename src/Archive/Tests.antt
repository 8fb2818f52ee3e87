-- ===== src/Archive/Tests.antt =====
-- The theorems on the archive format at concrete records, with `sample_crates` for the other crates.
use aether_arch.Base.{
  ℕ, ◌<◌, bytes_eq, ◌≤◌, ◌≡◌, ◌≢◌, refl, List, [], ◌∷◌, ◌++◌, arith, length, replicate, true, to_le,
  get_or, ap,
}
use aether_arch.Errors.{
  path_traversal, decompression, ok, err, invalid_block_magic, block_crc_mismatch,
  invalid_footer_magic, header_crc_mismatch, header_integrity_mismatch,
}
use aether_arch.Archive.Crates.{sample_crates, Crates}
use aether_arch.Archive.Codes.{
  neural_ssm, bwt_predictor_rans, zstd, text, footer_magic, legacy_magic,
}
use aether_arch.Archive.Block
use aether_arch.Archive.Block.{BlockHeader, BlockTrailer, BlockIndexEntry}
use aether_arch.Archive.Block.RoundTrip as BlockRoundTrip
use aether_arch.Archive.Header
use aether_arch.Archive.Header.{ArchiveHeader, SolidGroupEntry, ArchiveFooter}
use aether_arch.Archive.Header.RoundTrip as HeaderRoundTrip
use aether_arch.Archive.Files
use aether_arch.Archive.Files.{FileEntry}
use aether_arch.Archive.Files.Paths.{IsSafe}
use aether_arch.Archive.Files.RoundTrip.{IsEntry, read_file-write_file, read_file-IsSafe}
use aether_arch.Archive.Header.Legacy.{legacy_tag, legacy_header}
use aether_arch.Archive.Header.Limits.{read_archive_header-IsWithinLimits}

abbrev block : BlockHeader
block = record {
  block_id = 7;
  solid_group_id = 1;
  compression_method = bwt_predictor_rans;
  predictor_state_flag = true;
  compressed_size = 100;
  uncompressed_size = 300;
}

abbrev trailer : BlockTrailer
trailer = record { content_blake3 = replicate 32 9 }

abbrev entry : BlockIndexEntry
entry = record {
  block_id = 7;
  archive_offset = 48;
  compressed_size = 100;
  uncompressed_size = 300;
  solid_group_id = 1;
}

read_header_at-write_header_example :
    Block.read_header_at sample_crates 48 (Block.write_header sample_crates block ++ (5 ∷ []))
    ≡ ok (block, 5 ∷ [])
read_header_at-write_header_example =
    BlockRoundTrip.read_header_at-write_header sample_crates block 48 (5 ∷ []) (omega arith)

block_crc_24 : Block.header_crc sample_crates block ≡ 24
unfolding Block.header_crc to_le
block_crc_24 = refl

read_header_at-rejects_example :
    (Block.read_header_at sample_crates 48 (sample_crates.u32.write 3 ++ [])
      ≡ err (invalid_block_magic 48))
    × (Block.read_header_at sample_crates 48
          (Block.header_bytes sample_crates block ++ (sample_crates.u32.write 7 ++ []))
        ≡ err (block_crc_mismatch 7))
read_header_at-rejects_example =
    BlockRoundTrip.read_header_at-rejects sample_crates block 48 3 7 [] (omega arith) (omega arith)
      (omega arith) (omega arith) (omega (arith, block_crc_24))

abbrev archive : ArchiveHeader
archive = record {
  flags = 2;
  predictor_id = neural_ssm;
  file_count = 42;
  solid_group_count = 3;
  block_count = 100;
  file_table_offset = 48;
  block_index_offset = 999_999;
}

abbrev group : SolidGroupEntry
group = record {
  group_id = 7;
  content_type = text;
  compression_method = zstd;
  first_block_idx = 10;
  block_count = 5;
  file_count = 3;
}

abbrev footer : ArchiveFooter
footer = record {
  block_index_offset = 123_456;
  file_table_offset = 48;
  block_count = 50;
  file_count = 10;
}

read_archive_header-write_archive_header_example :
    Header.read_archive_header sample_crates
      (Header.write_archive_header sample_crates archive ++ (5 ∷ []))
    ≡ ok (archive, 5 ∷ [])
read_archive_header-write_archive_header_example =
    HeaderRoundTrip.read_archive_header-write_archive_header sample_crates archive (5 ∷ [])
      (omega arith) (omega arith)

archive_reads :
    Header.read_archive_header sample_crates
      (Header.write_archive_header sample_crates archive ++ [])
    ≡ ok (archive, [])
archive_reads =
    HeaderRoundTrip.read_archive_header-write_archive_header sample_crates archive [] (omega arith)
      (omega arith)

read_archive_header-IsWithinLimits_example : HeaderRoundTrip.IsWithinLimits archive
read_archive_header-IsWithinLimits_example =
    read_archive_header-IsWithinLimits sample_crates
      (Header.write_archive_header sample_crates archive ++ []) [] archive archive_reads

read_footer-write_footer_example :
    Header.read_footer sample_crates (Header.write_footer sample_crates footer ++ (5 ∷ []))
    ≡ ok (footer, 5 ∷ [])
read_footer-write_footer_example =
    HeaderRoundTrip.read_footer-write_footer sample_crates footer (5 ∷ []) (omega arith)

footer_crc_24 : Header.footer_crc sample_crates footer ≡ 24
unfolding Header.footer_crc Header.footer_bytes to_le
footer_crc_24 = refl

read_footer-rejects_example :
    (Header.read_footer sample_crates (
        Header.footer_bytes sample_crates footer
        ++ (sample_crates.u32.write 5 ++ (sample_crates.u32.write 6 ++ [])))
      ≡ err invalid_footer_magic)
    × (Header.read_footer sample_crates (
          Header.footer_bytes sample_crates footer
          ++ (sample_crates.u32.write 7 ++ (sample_crates.u32.write footer_magic ++ [])))
        ≡ err (header_crc_mismatch 7 (Header.footer_crc sample_crates footer)))
read_footer-rejects_example =
    HeaderRoundTrip.read_footer-rejects sample_crates footer 6 5 7 [] (omega arith) (omega arith)
      (omega arith) (omega arith) (omega arith) (omega (arith, footer_crc_24))

-- A hash that tells the two magic numbers apart: it keeps the eighth byte.
abbrev eighth_hash : List ℕ → List ℕ
eighth_hash bytes = get_or bytes 7 0 ∷ replicate 31 0

length-eighth_hash : (bytes : List ℕ) → length (eighth_hash bytes) ≡ 32
length-eighth_hash bytes = refl

abbrev eighth_crates : Crates
eighth_crates = record sample_crates { blake3 = eighth_hash; blake3_length = length-eighth_hash }

tags_differ : legacy_tag eighth_crates archive ≢ Header.compute_blake3_tag eighth_crates archive
unfolding Header.compute_blake3_tag
tags_differ e = absurd (omega (arith, ap (λ bytes. get_or bytes 0 0) e))

legacy_header_example :
    (Header.read_archive_header eighth_crates (
        legacy_magic
        ++ (Header.field_bytes eighth_crates archive
            ++ (Header.compute_blake3_tag eighth_crates archive ++ [])))
      ≡ ok (archive, []))
    × (Header.read_archive_header eighth_crates (
          legacy_magic
          ++ (Header.field_bytes eighth_crates archive ++ (legacy_tag eighth_crates archive ++ [])))
        ≡ err header_integrity_mismatch)
legacy_header_example =
    legacy_header eighth_crates archive [] (omega arith) (omega arith) tags_differ

abbrev file : FileEntry
file = record {
  path = b's' ∷ 0xc3 ∷ 0xa9 ∷ b'/' ∷ b'a' ∷ b'.' ∷ b'.' ∷ b'b' ∷ [];
  original_size = 70_000;
  blake3_hash = replicate 32 9;
  solid_group_id = 1;
  chunk_start_idx = 2;
  chunk_count = 3;
  permissions = 420;
  mtime = 1_700_000_000;
}

path_accepted : Files.check_path file.path ≡ ok tt
unfolding Files.check_path bytes_eq
path_accepted = refl

file-IsEntry : IsEntry file
file-IsEntry = record {
  path_length = omega arith;
  path = path_accepted;
  original_size = omega arith;
  blake3_hash = refl;
  solid_group_id = omega arith;
  chunk_start_idx = omega arith;
  chunk_count = omega arith;
  permissions = omega arith;
  mtime = omega arith;
}

read_file-write_file_example :
    Files.read_file sample_crates (Files.write_file sample_crates file ++ (5 ∷ []))
    ≡ ok (file, 5 ∷ [])
read_file-write_file_example = read_file-write_file sample_crates file (5 ∷ []) file-IsEntry

file_reads :
    Files.read_file sample_crates (Files.write_file sample_crates file ++ []) ≡ ok (file, [])
file_reads = read_file-write_file sample_crates file [] file-IsEntry

read_file-IsSafe_example :
    IsSafe file.path
    × (Files.is_utf8 file.path ≡ true)
    × (length file.path ≤ 4096)
    × (file.permissions < 512)
read_file-IsSafe_example =
    read_file-IsSafe sample_crates (Files.write_file sample_crates file ++ []) [] file file_reads

climbing_rejected : Files.check_path (b'a' ∷ b'\\' ∷ b'.' ∷ b'.' ∷ []) ≡ err path_traversal
unfolding Files.check_path bytes_eq
climbing_rejected = refl

surrogate_rejected : Files.check_path (0xed ∷ 0xa0 ∷ 0x80 ∷ []) ≡ err decompression
unfolding Files.check_path
surrogate_rejected = refl
