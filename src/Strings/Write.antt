-- ===== src/Strings/Write.antt =====
-- Making a V8 string from a buffer and writing it to one (the `new_from` and `write` methods of String in
-- src/string.rs).
--
-- A V8 string is the list of its UTF-16 code units, or of its Latin-1 bytes. V8 is a parameter; `none`
-- of a write is one that reads past the string or writes past the buffer.
pub mod Clamped
mod Tests
use rusty_v.Base.{
  ℕ, ◌+◌, ◌*◌, ◌%◌, ◌^◌, ◌<◌, ◌≤◌, ◌≡◌, Bool, true, false, if◌then◌else◌, ltb, leb, min, List, [],
  ◌∷◌, ◌++◌, map, length, take, drop, Option, none, some, ◌>>=◌,
}

-- `v8__String__NewFrom…`, with a length that is an `int`.
abbrev pub MakeString : Type 0
MakeString = List ℕ → Option (List ℕ)

-- `v8__String__Write_v2` and `v8__String__WriteOneByte_v2`: of the string, from an offset, a count of
-- characters, to a buffer, with or without `kNullTerminate`.
abbrev pub WriteString : Type 0
WriteString = List ℕ → ℕ → ℕ → List ℕ → Bool → Option (List ℕ)

abbrev pub i32_max : ℕ
i32_max = 2147483647

-- `usize::try_into::<int>`.
unfoldable pub int_length : List ℕ → Option ℕ
int_length buffer = if leb (length buffer) i32_max then some (length buffer) else none

unfoldable pub new_from_two_byte : MakeString → List ℕ → Option (List ℕ)
unfolding int_length
new_from_two_byte make buffer = do buffer_len ← int_length buffer; make (take buffer_len buffer)

unfoldable pub new_from_one_byte : MakeString → List ℕ → Option (List ℕ)
unfolding int_length
new_from_one_byte make buffer = do buffer_len ← int_length buffer; make (take buffer_len buffer)

-- An empty buffer gives `String::empty`.
unfoldable pub new_from_utf8 : MakeString → List ℕ → Option (List ℕ)
unfolding int_length
new_from_utf8 make [] = some []
new_from_utf8 make (b ∷ rest) = do
  buffer_len ← int_length (b ∷ rest)
  make (take buffer_len (b ∷ rest))

-- The count that is asked of V8, a `u32`.
unfoldable pub write_count : List ℕ → List ℕ → ℕ
write_count s buffer = min (length s) (length buffer) % 2 ^ 32

unfoldable pub write_v2 : WriteString → List ℕ → ℕ → List ℕ → Bool → Option (List ℕ)
unfolding write_count
write_v2 write s offset buffer terminate = write s offset (write_count s buffer) buffer terminate

unfoldable pub write_one_byte_v2 : WriteString → List ℕ → ℕ → List ℕ → Bool → Option (List ℕ)
unfolding write_count
write_one_byte_v2 write s offset buffer terminate =
    write s offset (write_count s buffer) buffer terminate
