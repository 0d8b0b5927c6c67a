-- ===== src/Flags/Handler.antt =====
-- `PropertyHandlerFlags` (src/property_handler_flags.rs).
use rusty_v.Base.{ℕ, ◌==◌, Bool, List, [], ◌∷◌}
use rusty_v.Flags.{has}

abbrev pub no_handler_flags : ℕ
no_handler_flags = 0

abbrev pub non_masking : ℕ
non_masking = 1

abbrev pub only_intercept_strings : ℕ
only_intercept_strings = 2

abbrev pub has_no_side_effect : ℕ
has_no_side_effect = 4

unfoldable pub default_handler : ℕ
default_handler = no_handler_flags

unfoldable pub is_no_handler_flags : ℕ → Bool
is_no_handler_flags bits = bits == no_handler_flags

unfoldable pub is_non_masking : ℕ → Bool
unfolding has
is_non_masking bits = has bits non_masking

unfoldable pub is_only_intercept_strings : ℕ → Bool
unfolding has
is_only_intercept_strings bits = has bits only_intercept_strings

unfoldable pub is_has_no_side_effect : ℕ → Bool
unfolding has
is_has_no_side_effect bits = has bits has_no_side_effect

-- What the predicates answer, in the order of the constants.
unfoldable pub handler_answers : ℕ → List Bool
unfolding is_non_masking is_only_intercept_strings is_has_no_side_effect
handler_answers bits =
    is_non_masking bits ∷ is_only_intercept_strings bits ∷ is_has_no_side_effect bits ∷ []

-- The constants.
abbrev pub handler_flags : List ℕ
handler_flags = non_masking ∷ only_intercept_strings ∷ has_no_side_effect ∷ []
