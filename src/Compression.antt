-- ===== src/Compression.antt =====
-- src/compression.
pub mod Algorithm
pub mod Rle
pub mod Engine
mod Tests
