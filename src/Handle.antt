-- ===== src/Handle.antt =====
-- Handles to V8 objects (src/handle.rs).
pub mod Host
pub mod Finalizers
pub mod Weak
pub mod Global
mod Tests
