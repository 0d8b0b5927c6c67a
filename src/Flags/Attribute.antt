-- ===== src/Flags/Attribute.antt =====
-- `PropertyAttribute` (src/property_attribute.rs).
use rusty_v.Base.{ℕ, ◌==◌, Bool, List, [], ◌∷◌}
use rusty_v.Flags.{has}

abbrev pub no_attributes : ℕ
no_attributes = 0

abbrev pub read_only : ℕ
read_only = 1

abbrev pub dont_enum : ℕ
dont_enum = 2

abbrev pub dont_delete : ℕ
dont_delete = 4

unfoldable pub default_attribute : ℕ
default_attribute = no_attributes

unfoldable pub is_no_attributes : ℕ → Bool
is_no_attributes bits = bits == no_attributes

unfoldable pub is_read_only : ℕ → Bool
unfolding has
is_read_only bits = has bits read_only

unfoldable pub is_dont_enum : ℕ → Bool
unfolding has
is_dont_enum bits = has bits dont_enum

unfoldable pub is_dont_delete : ℕ → Bool
unfolding has
is_dont_delete bits = has bits dont_delete

-- What the predicates answer, in the order of the constants.
unfoldable pub attribute_answers : ℕ → List Bool
unfolding is_read_only is_dont_enum is_dont_delete
attribute_answers bits = is_read_only bits ∷ is_dont_enum bits ∷ is_dont_delete bits ∷ []

-- The constants.
abbrev pub attribute_flags : List ℕ
attribute_flags = read_only ∷ dont_enum ∷ dont_delete ∷ []
