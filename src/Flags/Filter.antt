-- ===== src/Flags/Filter.antt =====
-- `PropertyFilter` (src/property_filter.rs).
use rusty_v.Base.{ℕ, ◌==◌, Bool, List, [], ◌∷◌}
use rusty_v.Flags.{has}

abbrev pub all_properties : ℕ
all_properties = 0

abbrev pub only_writable : ℕ
only_writable = 1

abbrev pub only_enumerable : ℕ
only_enumerable = 2

abbrev pub only_configurable : ℕ
only_configurable = 4

abbrev pub skip_strings : ℕ
skip_strings = 8

abbrev pub skip_symbols : ℕ
skip_symbols = 16

unfoldable pub default_filter : ℕ
default_filter = all_properties

unfoldable pub is_all_properties : ℕ → Bool
is_all_properties bits = bits == all_properties

unfoldable pub is_only_writable : ℕ → Bool
unfolding has
is_only_writable bits = has bits only_writable

unfoldable pub is_only_enumerable : ℕ → Bool
unfolding has
is_only_enumerable bits = has bits only_enumerable

unfoldable pub is_only_configurable : ℕ → Bool
unfolding has
is_only_configurable bits = has bits only_configurable

unfoldable pub is_skip_strings : ℕ → Bool
unfolding has
is_skip_strings bits = has bits skip_strings

unfoldable pub is_skip_symbols : ℕ → Bool
unfolding has
is_skip_symbols bits = has bits skip_symbols

-- What the predicates answer, in the order of the constants.
unfoldable pub filter_answers : ℕ → List Bool
unfolding is_only_writable is_only_enumerable is_only_configurable is_skip_strings is_skip_symbols
filter_answers bits =
    is_only_writable bits
    ∷ is_only_enumerable bits
    ∷ is_only_configurable bits
    ∷ is_skip_strings bits
    ∷ is_skip_symbols bits
    ∷ []

-- The constants.
abbrev pub filter_flags : List ℕ
filter_flags =
    only_writable ∷ only_enumerable ∷ only_configurable ∷ skip_strings ∷ skip_symbols ∷ []
