-- ===== src/Strings/Write/Clamped.antt =====
-- The count that a write asks for, against what V8 documents of it, and strings that are made of a
-- buffer and written back.
use native.Mathlib.Nat.{add-zero, mod-eq_of_lt}
use native.Mathlib.Decide.{dec_le, dec_lt}
use rusty_v.Base.{
  ℕ, ◌+◌, ◌%◌, ◌^◌, ◌<◌, ◌≤◌, ◌≡◌, ◌⊎◌, inl, inr, refl, ap, Bool, true, false, if◌then◌else◌, leb,
  le→leb, gt→leb, min, List, [], ◌∷◌, ◌++◌, map, length, take, drop, take-length, All, Option, none,
  some, ◌>>=◌, arith,
}
use rusty_v.Strings.Write.{
  MakeString, WriteString, i32_max, int_length, new_from_two_byte, new_from_one_byte, new_from_utf8,
  write_count, write_v2, write_one_byte_v2,
}

-- V8's kMaxLength is below the limit of an `int`. A string is made of a buffer just when it is not longer.
pub record IsMake (max_length : ℕ) (decode : List ℕ → List ℕ) (make : MakeString) : Type 0 where
  pub below : max_length ≤ i32_max
  pub makes :
      (buffer : List ℕ)
      → make buffer ≡ (if leb (length buffer) max_length then some (decode buffer) else none)

abbrev pub terminator : Bool → List ℕ
terminator true = 0 ∷ []
terminator false = []

-- The buffer after a copy of `count` characters from the offset, followed by the terminator if one is
-- asked for. `narrow` is what is kept of a code unit.
abbrev pub copied : (ℕ → ℕ) → List ℕ → ℕ → ℕ → List ℕ → Bool → List ℕ
copied narrow s offset count buffer terminate =
    map narrow (take count (drop offset s))
    ++ (terminator terminate ++ drop (count + length (terminator terminate)) buffer)

-- What V8 documents: the characters from the offset are copied to the front of the buffer; the string must
-- have them and the buffer must have room for them and for the terminator.
pub record IsWrite (narrow : ℕ → ℕ) (write : WriteString) : Type 0 where
  pub copies :
      (s : List ℕ) (offset count : ℕ) (buffer : List ℕ) (terminate : Bool)
      → offset + count ≤ length s
      → count + length (terminator terminate) ≤ length buffer
      → write s offset count buffer terminate ≡ some (copied narrow s offset count buffer terminate)
  pub strays :
      (s : List ℕ) (offset count : ℕ) (buffer : List ℕ) (terminate : Bool)
      → (length s < offset + count) ⊎ (length buffer < count + length (terminator terminate))
      → write s offset count buffer terminate ≡ none

-- The writes that stay within the string and the buffer.
abbrev pub Stays : List ℕ → ℕ → List ℕ → Bool → Type 0
Stays s offset buffer terminate =
    ((offset ≡ 0) ⊎ (offset + length buffer ≤ length s))
    × ((terminate ≡ false) ⊎ (length s < length buffer))

-- The writes that do not.
abbrev pub Leaves : List ℕ → ℕ → List ℕ → Bool → Type 0
Leaves s offset buffer terminate =
    ((0 < offset) × (length s < offset + length buffer))
    ⊎ ((terminate ≡ true) × (length buffer ≤ length s))

-- A write that stays within both copies the characters from the offset, as many as the string or the
-- buffer has; any other is undefined.
abbrev pub Clamps : (ℕ → ℕ) → List ℕ → ℕ → List ℕ → Bool → Option (List ℕ) → Type 0
Clamps narrow s offset buffer terminate written =
    (Stays s offset buffer terminate
      × (written ≡ some (copied narrow s offset (min (length s) (length buffer)) buffer terminate)))
    ⊎ (Leaves s offset buffer terminate × (written ≡ none))

count_of :
    (s buffer : List ℕ) → length s < 2 ^ 32 → write_count s buffer ≡ min (length s) (length buffer)
unfolding write_count
count_of s buffer h =
    let small : min (length s) (length buffer) < 4294967296 = omega arith in omega arith

in_string :
    (l b offset : ℕ)
    → (((offset ≡ 0) ⊎ (offset + b ≤ l)) × (offset + min l b ≤ l))
      ⊎ ((0 < offset) × (l < offset + b) × (l < offset + min l b))
in_string l b offset = elim (dec_lt 0 offset) [
  | no p ↦ inl (omega arith)
  | yes p ↦ elim (dec_le (offset + b) l) [ yes q ↦ inl (omega arith) | no q ↦ inr (omega arith) ]
]

in_buffer :
    (l b : ℕ) (terminate : Bool)
    → (((terminate ≡ false) ⊎ (l < b)) × (min l b + length (terminator terminate) ≤ b))
      ⊎ ((terminate ≡ true) × (b ≤ l) × (b < min l b + length (terminator terminate)))
in_buffer l b true = elim (dec_lt l b) [
  | yes p ↦ inl (inr p, omega arith)
  | no p ↦ inr (refl, omega arith, omega arith)
]
in_buffer l b false = inl (inl refl, omega arith)

Clamps-write :
    (narrow : ℕ → ℕ) (write : WriteString) (s : List ℕ) (offset : ℕ) (buffer : List ℕ)
    (terminate : Bool)
    → IsWrite narrow write
    → Clamps narrow s offset buffer terminate
        (write s offset (min (length s) (length buffer)) buffer terminate)
Clamps-write narrow write s offset buffer terminate w =
    let n = min (length s) (length buffer) in
    elim (in_string (length s) (length buffer) offset) [
      | inr (p, q, r) ↦ inr (inl (p, q), w.strays s offset n buffer terminate (inl r))
      | inl (p, q) ↦ elim (in_buffer (length s) (length buffer) terminate) [
        | inl (t, u) ↦ inl ((p, t), w.copies s offset n buffer terminate q u)
        | inr (t, u, v) ↦ inr (inr (t, u), w.strays s offset n buffer terminate (inr v))
      ]
    ]

abbrev pub low_byte : ℕ → ℕ
low_byte unit = unit % 256

-- For strings of less than 2^32 units, and functions of V8 that do as documented: write_v2 and
-- write_one_byte_v2 copy as many characters from the offset as the shorter of the string and the buffer
-- has, and the terminator, and leave the rest of the buffer, where the offset is 0 or the whole buffer
-- can be filled from it, and, for a terminator, the buffer is longer than the string. Any other write
-- reads past the end of the string or writes past the end of the buffer.
pub writes-Clamps :
    (write write_one_byte : WriteString) (s : List ℕ) (offset : ℕ) (buffer : List ℕ)
    (terminate : Bool)
    → IsWrite (λ unit. unit) write
    → IsWrite low_byte write_one_byte
    → length s < 2 ^ 32
    → Clamps (λ unit. unit) s offset buffer terminate (write_v2 write s offset buffer terminate)
      × Clamps low_byte s offset buffer terminate
          (write_one_byte_v2 write_one_byte s offset buffer terminate)
unfolding write_v2 write_one_byte_v2
writes-Clamps write write_one_byte s offset buffer terminate w one small =
    rw (count_of s buffer small) (
      Clamps-write _ write s offset buffer terminate w,
      Clamps-write _ write_one_byte s offset buffer terminate one,
    )

map_id : (xs : List ℕ) → map (λ x. x) xs ≡ xs
map_id [] = refl
map_id (x ∷ xs) = ap (λ t. x ∷ t) (map_id xs)

map_low_byte : (xs : List ℕ) → All (λ x. x < 256) xs → map low_byte xs ≡ xs
map_low_byte [] h = refl
map_low_byte (x ∷ xs) h = let small = h.0 in cc (mod-eq_of_lt small, map_low_byte xs h.1)

min_left : (a b : ℕ) → a ≤ b → min a b ≡ a
min_left a b h = omega arith

abbrev pub made : ℕ → List ℕ → List ℕ → Option (List ℕ)
made max_length buffer s = if leb (length buffer) max_length then some s else none

-- A call with a length that has to fit an `int`.
make_short :
    (max_length : ℕ) (decode : List ℕ → List ℕ) (make : MakeString) (buffer : List ℕ)
    → IsMake max_length decode make
    → (do buffer_len ← int_length buffer; make (take buffer_len buffer))
      ≡ made max_length buffer (decode buffer)
unfolding int_length
make_short max_length decode make buffer m =
    let low = m.below in
    elim (dec_le (length buffer) i32_max) [
      | yes fits ↦ rw (le→leb _ _ fits, take-length buffer, m.makes buffer)
      | no over ↦ rw (
        gt→leb (length buffer) i32_max (omega arith),
        gt→leb (length buffer) max_length (omega arith),
      )
    ]

-- V8 is not asked for a string of an empty UTF-8 buffer, and would give the same one.
pub new_from_utf8_lem :
    (max_length : ℕ) (decode : List ℕ → List ℕ) (make : MakeString) (buffer : List ℕ)
    → IsMake max_length decode make
    → decode [] ≡ []
    → new_from_utf8 make buffer ≡ made max_length buffer (decode buffer)
unfolding new_from_utf8
new_from_utf8_lem max_length decode make [] m e = rw (le→leb 0 max_length (omega arith), e)
new_from_utf8_lem max_length decode make (b ∷ rest) m e =
    make_short max_length decode make (b ∷ rest) m

whole :
    (narrow : ℕ → ℕ) (write : WriteString) (s buffer : List ℕ)
    → IsWrite narrow write
    → map narrow s ≡ s
    → length s ≤ i32_max
    → length s ≤ length buffer
    → write s 0 (write_count s buffer) buffer false ≡ some (s ++ drop (length s) buffer)
whole narrow write s buffer w kept small room =
    let n : min (length s) (length buffer) ≡ length s = min_left _ _ room in
    rw (
      count_of s buffer (omega arith),
      n,
      w.copies s 0 (length s) buffer false (omega arith) (omega arith),
      take-length s,
      kept,
      add-zero,
    )

round_trip :
    (max_length : ℕ) (narrow : ℕ → ℕ) (make : MakeString) (write : WriteString)
    (units buffer : List ℕ)
    → IsMake max_length (λ us. us) make
    → IsWrite narrow write
    → map narrow units ≡ units
    → length units ≤ length buffer
    → (do s ← made max_length units units; write s 0 (write_count s buffer) buffer false)
      ≡ made max_length units (units ++ drop (length units) buffer)
round_trip max_length narrow make write units buffer m w kept room =
    let low = m.below in
    elim (dec_le (length units) max_length) [
      | yes short ↦
          rw (le→leb _ _ short) (whole narrow write units buffer w kept (omega arith) room)
      | no long ↦ rw (gt→leb (length units) max_length (omega arith))
    ]

-- A string made of UTF-16 units, or of bytes, and written at offset 0 and without a terminator to a buffer
-- that is not shorter, in the same width, leaves the units at the front of the buffer and the rest as
-- it was; of more of them than V8 allows no string is made.
pub write-new_from :
    (max_length : ℕ) (make make_one_byte : MakeString) (write write_one_byte : WriteString)
    (units bytes buffer : List ℕ)
    → IsMake max_length (λ us. us) make
    → IsMake max_length (λ us. us) make_one_byte
    → IsWrite (λ unit. unit) write
    → IsWrite low_byte write_one_byte
    → All (λ b. b < 256) bytes
    → length units ≤ length buffer
    → length bytes ≤ length buffer
    → ((do s ← new_from_two_byte make units; write_v2 write s 0 buffer false)
        ≡ made max_length units (units ++ drop (length units) buffer))
      × ((do
        s ← new_from_one_byte make_one_byte bytes
        write_one_byte_v2 write_one_byte s 0 buffer false)
          ≡ made max_length bytes (bytes ++ drop (length bytes) buffer))
unfolding new_from_two_byte new_from_one_byte write_v2 write_one_byte_v2
write-new_from max_length make make_one_byte write write_one_byte units bytes buffer m o w v small r
      t =
    (
      rw (make_short max_length (λ us. us) make units m)
          (round_trip max_length _ make write units buffer m w (map_id units) r),
      rw (make_short max_length (λ us. us) make_one_byte bytes o) (
          round_trip max_length _ make_one_byte write_one_byte bytes buffer o v
            (map_low_byte bytes small) t),
    )
