-- ===== src/Flags.antt =====
-- The flag types of src/property_attribute.rs, src/property_filter.rs and
-- src/property_handler_flags.rs, and the arguments of src/get_property_names_args_builder.rs.
--
-- A value of a flag type is its `u32`. The fields are private, so that values come from the constants
-- by `|`, but for those that C++ gives.
pub mod Attribute
pub mod Filter
pub mod Handler
pub mod Sets
pub mod Builder
mod Tests
use rusty_v.Base.{ℕ, bit_and, bit_or, ◌==◌, Bool, not}

-- `has`, and `bitor`, of any of the three.
unfoldable pub has : ℕ → ℕ → Bool
has lhs rhs = not (0 == bit_and lhs rhs)

unfoldable pub bitor : ℕ → ℕ → ℕ
bitor lhs rhs = bit_or lhs rhs
