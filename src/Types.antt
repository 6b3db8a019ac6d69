-- ===== src/Types.antt =====
-- Values and tuples of src/types.
pub mod Value
pub mod Tuple
pub mod Tests
