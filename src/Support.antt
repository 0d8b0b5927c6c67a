-- ===== src/Support.antt =====
-- The helper types of src/support.rs.
pub mod Shared
pub mod Offsets
mod Tests
