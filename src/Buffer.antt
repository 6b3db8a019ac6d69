-- ===== src/Buffer.antt =====
-- The buffer layer: src/buffer and the parts of src/storage that it works on.
pub mod Replacer
pub mod LruReplacer
pub mod ClockReplacer
pub mod BufferPool
