-- ===== src/Index.antt =====
-- Index pages: src/index.
pub mod Entries
pub mod LeafPage
pub mod InternalPage
