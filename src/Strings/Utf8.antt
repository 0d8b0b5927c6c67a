-- ===== src/Strings/Utf8.antt =====
-- UTF-8: `char::encode_utf8` of the standard library, and the well-formedness that
-- `from_utf8_unchecked` relies on, as a strict decoder after Table 3-7 of the Unicode standard.
pub mod Wellformed
use rusty_v.Base.{
  ℕ, zero, suc, ◌+◌, ◌-◌, ◌*◌, ◌/◌, ◌%◌, ◌≤◌, ◌<◌, ◌⊎◌, ltb, leb, ◌==◌, if◌then◌else◌, ◌&&◌, List,
  [], ◌∷◌, ◌++◌, Option, none, some,
}

-- A Unicode scalar value: what a `char` holds.
abbrev pub IsScalar : ℕ → Type 0
IsScalar c = (c < 0xd800) ⊎ ((0xe000 ≤ c) × (c < 0x110000))

unfoldable pub encode_utf8 : ℕ → List ℕ
encode_utf8 c =
    if ltb c 0x80
    then c ∷ []
    else if ltb c 0x800
    then (c / 64 + 0xc0) ∷ (c % 64 + 0x80) ∷ []
    else if ltb c 0x10000
    then (c / 4096 + 0xe0) ∷ (c / 64 % 64 + 0x80) ∷ (c % 64 + 0x80) ∷ []
    else (c / 262144 + 0xf0) ∷ (c / 4096 % 64 + 0x80) ∷ (c / 64 % 64 + 0x80) ∷ (c % 64 + 0x80) ∷ []

-- `String::push` of each `char`.
unfoldable pub utf8 : List ℕ → List ℕ
utf8 [] = []
utf8 (c ∷ cs) = encode_utf8 c ++ utf8 cs

-- Where a decoder stands: between characters, or with continuation bytes to come. `more n acc lo hi`
-- wants one byte in lo..=hi, and `n` after it.
pub data Pending : Type 0 where
  start : Pending
  more : ℕ → ℕ → ℕ → ℕ → Pending

-- The first byte of a character.
unfoldable pub lead : ℕ → Option (Pending × List ℕ)
lead b =
    if ltb b 0x80
    then some (start, b ∷ [])
    else if ltb b 0xc2
    then none
    else if ltb b 0xe0
    then some (more 0 (b - 0xc0) 0x80 0xbf, [])
    else if ltb b 0xf0
    then some (
      more 1 (b - 0xe0) (if b == 0xe0 then 0xa0 else 0x80) (if b == 0xed then 0x9f else 0xbf),
      [],
    )
    else if ltb b 0xf5
    then some (
      more 2 (b - 0xf0) (if b == 0xf0 then 0x90 else 0x80) (if b == 0xf4 then 0x8f else 0xbf),
      [],
    )
    else none

unfoldable pub follow : ℕ → ℕ → Pending × List ℕ
follow zero acc = (start, acc ∷ [])
follow (suc n) acc = (more n acc 0x80 0xbf, [])

unfoldable pub advance : Pending → ℕ → Option (Pending × List ℕ)
unfolding lead follow
advance start b = lead b
advance (more n acc lo hi) b =
    if leb lo b && leb b hi then some (follow n (acc * 64 + b % 64)) else none

unfoldable pub prepend : List ℕ → Option (List ℕ) → Option (List ℕ)
prepend cs none = none
prepend cs (some ds) = some (cs ++ ds)

unfoldable pub decode_from : Pending → List ℕ → Option (List ℕ)
unfolding advance prepend
decode_from start [] = some []
decode_from (more n acc lo hi) [] = none
decode_from p (b ∷ bs) = elim (advance p b) [
  | none ↦ none
  | some (q, cs) ↦ prepend cs (decode_from q bs)
]

-- `none` on bytes that are not UTF-8.
unfoldable pub decode_utf8 : List ℕ → Option (List ℕ)
unfolding decode_from
decode_utf8 bs = decode_from start bs
