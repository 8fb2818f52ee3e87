-- ===== src/Pipeline.antt =====
-- aether-core/src/pipeline/: what compresses and extracts chunks and files.
pub mod Zstd
pub mod Router
pub mod ExtractionPath
pub mod Reassemble
