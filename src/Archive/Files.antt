-- ===== src/Archive/Files.antt =====
-- aether-core/src/header.rs: `FileEntry`, its plain form, and the checks on a path from an archive.
-- A path is the list of its bytes, and `mtime` the bit pattern of the `i64`.
pub mod Paths
pub mod RoundTrip
use aether_arch.Base.{
  ℕ, zero, suc, ◌+◌, ◌%◌, ◌^◌, List, [], ◌∷◌, ◌++◌, if◌then◌else◌, ◌==◌, leb, ltb, Bool, true,
  false, not, Option, none, some, length, bytes_eq, ◌||◌, ◌&&◌,
}
use aether_arch.Errors.{
  Result, ok, err, ◌>>=◌, ◌>>◌, guard, resource_limit_exceeded, decompression, path_traversal,
}
use aether_arch.Archive.Crates.{Reader, Crates, read_exact}
use aether_arch.Archive.Codes.{max_path_length}

pub record FileEntry : Type 0 where
  pub path : List ℕ
  pub original_size : ℕ
  pub blake3_hash : List ℕ
  pub solid_group_id : ℕ
  pub chunk_start_idx : ℕ
  pub chunk_count : ℕ
  pub permissions : ℕ
  pub mtime : ℕ

-- The test of `String::from_utf8`: how many bytes a leading byte announces, and the range of the
-- first of them, which excludes overlong forms, surrogates and what is above U+10FFFF.
unfoldable pub lead : ℕ → Option (ℕ × ℕ × ℕ)
lead b =
    if ltb b 0x80
    then some (0, 0x80, 0xbf)
    else if ltb b 0xc2
    then none
    else if ltb b 0xe0
    then some (1, 0x80, 0xbf)
    else if ltb b 0xf0
    then some (2, (if b == 0xe0 then 0xa0 else 0x80), (if b == 0xed then 0x9f else 0xbf))
    else if ltb b 0xf5
    then some (3, (if b == 0xf0 then 0x90 else 0x80), (if b == 0xf4 then 0x8f else 0xbf))
    else none

-- `pending` bytes of a character are still to come, the next of them from `low` to `high`.
unfoldable pub utf8_from : ℕ → ℕ → ℕ → List ℕ → Bool
unfolding lead
utf8_from zero low high [] = true
utf8_from (suc pending) low high [] = false
utf8_from zero low high (b ∷ bs) = elim (lead b) [
  | none ↦ false
  | some (pending, low', high') ↦ utf8_from pending low' high' bs
]
utf8_from (suc pending) low high (b ∷ bs) =
    leb low b && leb b high && utf8_from pending 0x80 0xbf bs

unfoldable pub is_utf8 : List ℕ → Bool
unfolding utf8_from
is_utf8 bs = utf8_from 0 0x80 0xbf bs

-- `as_bytes().contains(&0)`
unfoldable pub contains_nul : List ℕ → Bool
contains_nul [] = false
contains_nul (b ∷ bs) = b == 0 || contains_nul bs

abbrev pub is_separator : ℕ → Bool
is_separator b = b == b'/' || b == b'\\'

unfoldable pub starts_with_separator : List ℕ → Bool
starts_with_separator [] = false
starts_with_separator (b ∷ bs) = is_separator b

-- `len() >= 2 && as_bytes()[1] == b':'`
unfoldable pub has_drive : List ℕ → Bool
has_drive (a ∷ b ∷ bs) = b == b':'
has_drive short = false

abbrev pub prepend : ℕ → List (List ℕ) → List (List ℕ)
prepend b [] = (b ∷ []) ∷ []
prepend b (c ∷ cs) = (b ∷ c) ∷ cs

-- `split(&['/', '\\'])`
unfoldable pub components : List ℕ → List (List ℕ)
components [] = [] ∷ []
components (b ∷ bs) = if is_separator b then [] ∷ components bs else prepend b (components bs)

abbrev pub dot_dot : List ℕ
dot_dot = b'.' ∷ b'.' ∷ []

unfoldable pub has_dot_dot : List (List ℕ) → Bool
unfolding bytes_eq
has_dot_dot [] = false
has_dot_dot (c ∷ cs) = bytes_eq c dot_dot || has_dot_dot cs

unfoldable pub check_path : List ℕ → Result (Unit {0})
unfolding is_utf8 contains_nul starts_with_separator has_drive components has_dot_dot
check_path path = do
  guard (is_utf8 path) decompression
  guard (not (contains_nul path)) path_traversal
  guard (not (starts_with_separator path)) path_traversal
  guard (not (has_drive path)) path_traversal
  guard (not (has_dot_dot (components path))) path_traversal

module _ (c : Crates) where
  -- `path_bytes.len() as u16` keeps the low 16 bits.
  unfoldable pub write_file : FileEntry → List ℕ
  write_file e =
      c.u16.write (length e.path % 2 ^ 16)
      ++ (e.path
          ++ (c.u64.write e.original_size
              ++ (e.blake3_hash
                  ++ (c.u32.write e.solid_group_id
                      ++ (c.u32.write e.chunk_start_idx
                          ++ (c.u32.write e.chunk_count
                              ++ (c.u32.write e.permissions ++ c.u64.write e.mtime)))))))

  -- The permissions are masked with 0o777, the lowest nine bits.
  unfoldable pub read_file : Reader FileEntry
  unfolding check_path
  read_file bytes = do
    (path_len, s) ← c.u16.read bytes
    guard (leb path_len max_path_length) resource_limit_exceeded
    (path, s) ← read_exact path_len s
    check_path path
    (original_size, s) ← c.u64.read s
    (blake3_hash, s) ← read_exact 32 s
    (solid_group_id, s) ← c.u32.read s
    (chunk_start_idx, s) ← c.u32.read s
    (chunk_count, s) ← c.u32.read s
    (permissions, s) ← c.u32.read s
    (mtime, s) ← c.u64.read s
    ok (
      record {
        path = path;
        original_size = original_size;
        blake3_hash = blake3_hash;
        solid_group_id = solid_group_id;
        chunk_start_idx = chunk_start_idx;
        chunk_count = chunk_count;
        permissions = permissions % 512;
        mtime = mtime;
      },
      s,
    )
