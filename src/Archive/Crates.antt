-- ===== src/Archive/Crates.antt =====
-- What the archive format takes from other crates: byteorder's little-endian reads and writes,
-- blake3::hash and crc32fast::hash. A reader is a function of the bytes still to be read.
use aether_arch.Base.{
  ℕ, ◌^◌, ◌<◌, ◌≡◌, refl, List, [], ◌∷◌, ◌++◌, length, take, drop, replicate, arith, to_le, from_le,
  length-to_le, from_le-to_le, take-append, drop-append, length-append, if◌then◌else◌, leb, ◌%◌,
  true,
}
use aether_arch.Errors.{Result, ok, err, io}

abbrev pub Reader {ℓ} : Type ℓ → Type ℓ
Reader A = List ℕ → Result (A × List ℕ)

-- `WriteBytesExt` and `ReadBytesExt` at one width, with what their documentation promises: a number
-- that fits takes `width` bytes, is read back from them, and a reader with fewer bytes fails with an
-- I/O error.
pub record Word (width : ℕ) : Type 0 where
  pub write : ℕ → List ℕ
  pub read : Reader ℕ
  pub write_length : (v : ℕ) → length (write v) ≡ width
  pub read-write : (v : ℕ) (rest : List ℕ) → v < 256 ^ width → read (write v ++ rest) ≡ ok (v, rest)
  pub read_short : (bytes : List ℕ) → length bytes < width → read bytes ≡ err io

pub record Crates : Type 0 where
  pub u16 : Word 2
  pub u32 : Word 4
  pub u64 : Word 8
  pub blake3 : List ℕ → List ℕ
  pub blake3_length : (bytes : List ℕ) → length (blake3 bytes) ≡ 32
  pub crc32 : List ℕ → ℕ
  pub crc32_bound : (bytes : List ℕ) → crc32 bytes < 2 ^ 32

-- `Read::read_exact` into a buffer of `n` bytes, from a slice.
unfoldable pub read_exact : ℕ → Reader (List ℕ)
read_exact n bytes = if leb n (length bytes) then ok (take n bytes, drop n bytes) else err io

-- `read_u8`.
unfoldable pub read_u8 : Reader ℕ
read_u8 [] = err io
read_u8 (b ∷ rest) = ok (b, rest)

pub read_exact-append :
    (n : ℕ) (xs rest : List ℕ) → length xs ≡ n → read_exact n (xs ++ rest) ≡ ok (xs, rest)
unfolding read_exact
read_exact-append n xs rest h =
    let enough : leb n (length (xs ++ rest)) ≡ true = ground (arith, length-append xs rest) in
    rw (enough, take-append n xs rest h, drop-append n xs rest h)

-- Crates with which the laws hold: little-endian words, a hash and a checksum of the length alone.
abbrev pub le_read : ℕ → Reader ℕ
le_read width bytes =
    if leb width (length bytes) then ok (from_le (take width bytes), drop width bytes) else err io

pub le_read-to_le :
    (width v : ℕ) (rest : List ℕ)
    → v < 256 ^ width
    → le_read width (to_le width v ++ rest) ≡ ok (v, rest)
le_read-to_le width v rest h =
    let len = length-to_le width v in
    let enough : leb width (length (to_le width v ++ rest)) ≡ true =
      ground (arith, length-append (to_le width v) rest, len) in
    rw
      (
        enough,
        take-append width (to_le width v) rest len,
        drop-append width (to_le width v) rest len,
      )
      (rw (from_le-to_le width v h))

pub le_read_short :
    (width : ℕ) (bytes : List ℕ) → length bytes < width → le_read width bytes ≡ err io
le_read_short width bytes h = ground arith

abbrev pub little_endian : (width : ℕ) → Word width
little_endian width = record {
  write = to_le width;
  read = le_read width;
  write_length = length-to_le width;
  read-write = le_read-to_le width;
  read_short = le_read_short width;
}

abbrev pub length_hash : List ℕ → List ℕ
length_hash bytes = (length bytes % 256) ∷ replicate 31 0

pub length-length_hash : (bytes : List ℕ) → length (length_hash bytes) ≡ 32
length-length_hash bytes = refl

pub length_crc_bound : (bytes : List ℕ) → length bytes % 2 ^ 32 < 2 ^ 32
length_crc_bound bytes = omega arith

abbrev pub sample_crates : Crates
sample_crates = record {
  u16 = little_endian 2;
  u32 = little_endian 4;
  u64 = little_endian 8;
  blake3 = length_hash;
  blake3_length = length-length_hash;
  crc32 = λ bytes. length bytes % 2 ^ 32;
  crc32_bound = length_crc_bound;
}
