-- ===== src/Strings.antt =====
-- Transcoding of V8 strings to Rust strings (src/string.rs).
pub mod Utf8
pub mod Utf16
pub mod Latin1
pub mod Host
pub mod Convert
pub mod View
pub mod Write
mod Tests
