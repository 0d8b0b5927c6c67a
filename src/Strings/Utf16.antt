-- ===== src/Strings/Utf16.antt =====
-- `std::char::decode_utf16`, as the standard library documents it, and what it keeps.
pub mod Lossless
use rusty_v.Base.{
  ℕ, ◌+◌, ◌-◌, ◌*◌, ◌/◌, ◌%◌, ◌<◌, ltb, leb, if◌then◌else◌, ◌&&◌, ◌||◌, Bool, true, false, List, [],
  ◌∷◌, ◌++◌, map, all,
}

-- An item of the iterator: `Ok(c)`, or `Err` with the surrogate that has no partner.
pub data Decoded : Type 0 where
  char : ℕ → Decoded
  unpaired : ℕ → Decoded

abbrev pub IsUnit : ℕ → Type 0
IsUnit u = u < 65536

abbrev pub is_surrogate : ℕ → Bool
is_surrogate u = leb 0xd800 u && leb u 0xdfff

-- What a unit gives, when another follows it.
pub data Kind : Type 0 where
  single : Decoded → Kind
  pair : ℕ → Kind

unfoldable pub classify : ℕ → ℕ → Kind
classify u v =
    if is_surrogate u
    then if leb 0xdc00 u || ltb v 0xdc00 || ltb 0xdfff v
      then single (unpaired u)
      else pair ((u % 0x400) * 0x400 + v % 0x400 + 0x10000)
    else single (char u)

unfoldable pub decode_last : ℕ → Decoded
decode_last u = if is_surrogate u then unpaired u else char u

unfoldable pub decode_utf16 : List ℕ → List Decoded
unfolding classify decode_last
decode_utf16 [] = []
decode_utf16 (u ∷ []) = decode_last u ∷ []
decode_utf16 (u ∷ v ∷ rest) = elim (classify u v) [
  | single d ↦ d ∷ decode_utf16 (v ∷ rest)
  | pair c ↦ char c ∷ decode_utf16 rest
]

-- `unwrap_or('\u{FFFD}')`.
unfoldable pub replace : Decoded → ℕ
replace (char c) = c
replace (unpaired u) = 0xfffd

-- The characters that a lossy conversion gives.
unfoldable pub lossy : List ℕ → List ℕ
unfolding decode_utf16 replace
lossy units = map replace (decode_utf16 units)

abbrev is_char : Decoded → Bool
is_char (char c) = true
is_char (unpaired u) = false

-- Whether every surrogate is paired.
unfoldable pub well_formed : List ℕ → Bool
unfolding decode_utf16
well_formed units = all is_char (decode_utf16 units)
