-- ===== src/Catalog.antt =====
-- Tables, constraints and the catalog of src/catalog.
pub mod TableHeap
pub mod Constraints
mod Tests
