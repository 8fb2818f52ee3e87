-- ===== src/Archive/Header/Limits.antt =====
-- What is known of any header that the reader accepts.
use aether_arch.Base.{ℕ, ◌≡◌, List, arith}
use aether_arch.Errors.{ok}
use aether_arch.Archive.Crates.{Crates}
use aether_arch.Archive.Header.{ArchiveHeader, check_limits, read_archive_header}
use aether_arch.Archive.Header.RoundTrip.{IsWithinLimits}

module _ (c : Crates) where
  -- On any bytes at all, a header that the reader accepts has counts within the limits.
  pub read_archive_header-IsWithinLimits :
      (bytes rest : List ℕ) (h : ArchiveHeader)
      → read_archive_header c bytes ≡ ok (h, rest)
      → IsWithinLimits h
  unfolding read_archive_header check_limits
  read_archive_header-IsWithinLimits bytes rest h e = ground arith
