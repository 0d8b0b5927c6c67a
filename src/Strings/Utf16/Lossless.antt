-- ===== src/Strings/Utf16/Lossless.antt =====
-- What `decode_utf16` gives are characters, and they determine the input.
use rusty_v.Base.{
  ℕ, ◌+◌, ◌-◌, ◌/◌, ◌%◌, ◌≡◌, refl, ap, ltb, if◌then◌else◌, true, List, [], ◌∷◌, ◌++◌, All, arith,
  map, all, ◌∙◌,
}
use rusty_v.Strings.Utf8.{IsScalar}
use rusty_v.Strings.Utf16.{
  Decoded, char, unpaired, IsUnit, decode_utf16, replace, lossy, well_formed, is_char,
}

-- `char::encode_utf16`.
unfoldable pub encode_utf16 : ℕ → List ℕ
encode_utf16 c =
    if ltb c 0x10000
    then c ∷ []
    else ((c - 0x10000) / 0x400 + 0xd800) ∷ ((c - 0x10000) % 0x400 + 0xdc00) ∷ []

unfoldable pub utf16 : List ℕ → List ℕ
utf16 [] = []
utf16 (c ∷ cs) = encode_utf16 c ++ utf16 cs

-- The units that an item was read from.
unfoldable pub units_of : List Decoded → List ℕ
units_of [] = []
units_of (char c ∷ ds) = encode_utf16 c ++ units_of ds
units_of (unpaired u ∷ ds) = u ∷ units_of ds

-- No unit is lost or made up, in ill-formed text too.
pub units_of-decode_utf16 :
    (units : List ℕ) → All IsUnit units → units_of (decode_utf16 units) ≡ units
unfolding units_of decode_utf16 encode_utf16
units_of-decode_utf16 [] h = refl
units_of-decode_utf16 (u ∷ []) h = ground arith
units_of-decode_utf16 (u ∷ v ∷ rest) h =
    ground (arith, units_of-decode_utf16 (v ∷ rest) h.1, units_of-decode_utf16 rest h.1.1)

pub lossy-IsScalar : (units : List ℕ) → All IsUnit units → All IsScalar (lossy units)
unfolding lossy
lossy-IsScalar [] h = tt
lossy-IsScalar (u ∷ []) h = ground arith
lossy-IsScalar (u ∷ v ∷ rest) h =
    ground (arith, lossy-IsScalar (v ∷ rest) h.1, lossy-IsScalar rest h.1.1)

units_of-chars : (ds : List Decoded) → all is_char ds ≡ true → utf16 (map replace ds) ≡ units_of ds
unfolding utf16 units_of replace
units_of-chars [] h = refl
units_of-chars (char c ∷ ds) h = ap (λ t. encode_utf16 c ++ t) (units_of-chars ds h)
units_of-chars (unpaired u ∷ ds) h = cc

-- Well-formed text survives the lossy conversion.
pub utf16-lossy :
    (units : List ℕ) → All IsUnit units → well_formed units ≡ true → utf16 (lossy units) ≡ units
unfolding lossy well_formed
utf16-lossy units h ok = units_of-chars (decode_utf16 units) ok ∙ units_of-decode_utf16 units h
