-- ===== src/Archive/Files/RoundTrip.antt =====
-- File entries: what is written is read back, and what any bytes can be read as.
use aether_arch.Base.{
  ℕ, ◌%◌, ◌^◌, ◌<◌, ◌≤◌, ◌≡◌, refl, List, ◌++◌, true, Bool, leb, le→leb, leb→le, length,
  length-take, arith, append_assoc,
}
use mathlib.Core.Path.{subst}
use aether_arch.Errors.{AetherError, resource_limit_exceeded, Result, ok, err, ◌>>=◌, guard}
use aether_arch.Archive.Crates.{Crates, read_exact, read_exact-append}
use aether_arch.Archive.Codes.{max_path_length}
use aether_arch.Archive.Files.{FileEntry, is_utf8, check_path, write_file, read_file}
use aether_arch.Archive.Files.Paths.{IsSafe, check_path-IsSafe, check_path_inv}

-- The fields fit the words that Rust keeps them in, the path is one that a reader accepts, and the
-- permissions are those that it keeps.
pub record IsEntry (e : FileEntry) : Type 0 where
  pub path_length : length e.path ≤ max_path_length
  pub path : check_path e.path ≡ ok tt
  pub original_size : e.original_size < 2 ^ 64
  pub blake3_hash : length e.blake3_hash ≡ 32
  pub solid_group_id : e.solid_group_id < 2 ^ 32
  pub chunk_start_idx : e.chunk_start_idx < 2 ^ 32
  pub chunk_count : e.chunk_count < 2 ^ 32
  pub permissions : e.permissions < 512
  pub mtime : e.mtime < 2 ^ 64

-- What holds of the value of any success.
abbrev Ensures {ℓ κ} : {T : Type ℓ} → (T → Type κ) → Result T → Type κ
Ensures P (ok t) = P t
Ensures P (err e) = Unit

-- Behind a step, that it succeeded is known.
bind_rule {ℓ κ ν} :
    {T : Type ℓ} {U : Type κ} (P : U → Type ν) (m : Result T) (f : T → Result U)
    → ((t : T) → m ≡ ok t → Ensures P (f t))
    → Ensures P (m >>= f)
bind_rule P (ok t) f k = k t refl
bind_rule P (err e) f k = tt

guard_inv : (b : Bool) (e : AetherError) (u : Unit {0}) → guard b e ≡ ok u → b ≡ true
guard_inv b e u h = ground arith

length-read_exact :
    (n : ℕ) (bytes xs rest : List ℕ) → read_exact n bytes ≡ ok (xs, rest) → length xs ≡ n
unfolding read_exact
length-read_exact n bytes xs rest h = let size = length-take n bytes in ground (arith, size)

short :
    (n : ℕ) (s : List ℕ) (path : List ℕ × List ℕ) (u : Unit {0})
    → guard (leb n max_path_length) resource_limit_exceeded ≡ ok u
    → read_exact n s ≡ ok path
    → length path.0 ≤ max_path_length
short n s path u limit whole =
    let small = leb→le n max_path_length (guard_inv _ _ u limit) in
    omega (arith, length-read_exact n s path.0 path.1 whole)

module _ (c : Crates) where
  -- An entry whose fields fit, with a path that the checks accept, of 4096 bytes at most, and
  -- permissions below 0o1000, is read back from what `write_to` wrote, and what stands behind it is
  -- left.
  pub read_file-write_file :
      (e : FileEntry) (rest : List ℕ)
      → IsEntry e
      → read_file c (write_file c e ++ rest) ≡ ok (e, rest)
  unfolding write_file read_file
  read_file-write_file e rest fits =
      let short : length e.path % 2 ^ 16 ≡ length e.path = omega (arith, fits.path_length) in
      let mode : e.permissions % 512 ≡ e.permissions = omega (arith, fits.permissions) in
      simp append_assoc (
        rw
          (
            short,
            c.u16.read-write (length e.path) _ (omega (arith, fits.path_length)),
            le→leb (length e.path) max_path_length fits.path_length,
            read_exact-append (length e.path) e.path _ refl,
            fits.path,
            c.u64.read-write e.original_size _ fits.original_size,
            read_exact-append 32 e.blake3_hash _ fits.blake3_hash,
            c.u32.read-write e.solid_group_id _ fits.solid_group_id,
            c.u32.read-write e.chunk_start_idx _ fits.chunk_start_idx,
            c.u32.read-write e.chunk_count _ fits.chunk_count,
            c.u32.read-write e.permissions _ (omega (arith, fits.permissions)),
            c.u64.read-write e.mtime _ fits.mtime,
            mode,
          )
          refl)

  abbrev Claim : FileEntry × List ℕ → Type 0
  Claim (e, rest) =
      IsSafe e.path
      × (is_utf8 e.path ≡ true)
      × (length e.path ≤ max_path_length)
      × (e.permissions < 512)

  read_file-Ensures : (bytes : List ℕ) → Ensures Claim (read_file c bytes)
  unfolding read_file
  read_file-Ensures bytes = bind_rule Claim (c.u16.read bytes) _ (λ size h1.
      bind_rule Claim (guard (leb size.0 max_path_length) resource_limit_exceeded) _ (λ u limit.
        bind_rule Claim (read_exact size.0 size.1) _ (λ path whole.
          bind_rule Claim (check_path path.0) _ (λ u' checked.
            bind_rule Claim (c.u64.read path.1) _ (λ original h2.
              bind_rule Claim (read_exact 32 original.1) _ (λ hash h3.
                bind_rule Claim (c.u32.read hash.1) _ (λ group h4.
                  bind_rule Claim (c.u32.read group.1) _ (λ start h5.
                    bind_rule Claim (c.u32.read start.1) _ (λ count h6.
                      bind_rule Claim (c.u32.read count.1) _ (λ mode h7.
                        bind_rule Claim (c.u64.read mode.1) _ (λ time h8. (
                          check_path-IsSafe path.0 checked,
                          (check_path_inv path.0 checked).0,
                          short size.0 size.1 path u limit whole,
                          omega arith,
                        ))))))))))))

  -- Whatever bytes it is given, an entry that `read_from` returns has a path of UTF-8, of 4096 bytes
  -- at most, without a NUL byte, that is neither absolute nor on a drive and has no component `..`,
  -- and permissions without the setuid, setgid and sticky bits.
  pub read_file-IsSafe :
      (bytes rest : List ℕ) (e : FileEntry)
      → read_file c bytes ≡ ok (e, rest)
      → IsSafe e.path
        × (is_utf8 e.path ≡ true)
        × (length e.path ≤ max_path_length)
        × (e.permissions < 512)
  read_file-IsSafe bytes rest e h = subst (Ensures Claim) h (read_file-Ensures bytes)
