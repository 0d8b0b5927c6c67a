-- ===== src/Data.antt =====
-- The class hierarchy of V8's heap objects (src/data.rs): conversions, casts and equality.
--
-- Every macro call of the file is an entry of a table, and the macros' expansions are functions on the
-- entries.
pub mod Classes
pub mod Contexts
pub mod Templates
pub mod Objects
pub mod Buffers
pub mod Views
pub mod Wrappers
pub mod Others
pub mod Primitives
pub mod Table
pub mod Conversions
pub mod Equality
mod Tests
