-- ===== src/Coding.antt =====
-- The reversible transforms of aether-core/src/coding.
pub mod Rans
pub mod Bwt
pub mod Bcj
pub mod Mtf
pub mod ZeroRun
pub mod Lz77
pub mod BytePlane
mod Tests
