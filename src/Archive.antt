-- ===== src/Archive.antt =====
-- The .aet container: codes and limits (format.rs), blocks (block.rs) and headers (header.rs).
pub mod Crates
pub mod Codes
pub mod Block
pub mod Header
pub mod Files
mod Tests
