-- ===== src/Coding/Lz77.antt =====
-- aether-core/src/coding/lz77_preprocess.rs: LZ77 with matches of three bytes or more.
-- The types and the limits of the format; `Coding/Lz77/Finder` is the hash chain search,
-- `Coding/Lz77/Encode` and `Coding/Lz77/Decode` are the two directions.
pub mod Finder
pub mod Encode
pub mod Decode
pub mod RoundTrip
pub mod Output
