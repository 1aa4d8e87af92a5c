-- ===== src/Chunks.antt =====
-- tar/chunks: the chunk layer, which counts how many archives use each stored chunk.
pub mod Data
pub mod Flags
pub mod Stats
pub mod Padme
pub mod Write
pub mod Read
pub mod Delete
pub mod Directory
pub mod Refs
pub mod Counts
pub mod Commit
pub mod Session
pub mod Lifetime
pub mod Samples
mod Tests
