-- ===== src/Multitape.antt =====
-- tar/multitape: what is stored of an archive beside its chunks.
pub mod Wire
pub mod Metadata
pub mod Metaindex
pub mod Files
pub mod Chunkify
mod Tests
