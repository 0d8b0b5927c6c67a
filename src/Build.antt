-- ===== src/Build.antt =====
-- The build script (build.rs): the archive that it downloads, and the arguments that it generates.
pub mod Environment
pub mod Arguments
pub mod Download
pub mod Inflate
mod Tests
