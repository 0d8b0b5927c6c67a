-- ===== src/Isolate.antt =====
-- What the bindings keep for each isolate (src/isolate.rs).
pub mod Slots
pub mod DataSlots
pub mod Owned
pub mod Shared
mod Tests
