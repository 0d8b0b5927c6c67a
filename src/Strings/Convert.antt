-- ===== src/Strings/Convert.antt =====
-- The conversion helpers of src/string.rs, with and without the feature `simdutf`.
--
-- A `debug_assert!` that fails, as it does in a debug build, a slice out of range, and an access out
-- of bounds are `none`.
pub mod Owned
pub mod Borrowed
use rusty_v.Base.{
  ℕ, zero, suc, ◌+◌, ◌*◌, ltb, leb, ◌==◌, if◌then◌else◌, Bool, true, false, not, ◌&&◌, List, [],
  ◌∷◌, ◌++◌, Option, none, some, ◌>>=◌, ◌>>◌, assert, length, take, drop, all,
}
use rusty_v.Strings.Utf8.{encode_utf8, utf8}
use rusty_v.Strings.Utf16.{Decoded, decode_utf16, replace, lossy}
use rusty_v.Strings.Latin1.{latin1_to_utf8}
use rusty_v.Strings.Host.{Simdutf, Host, Buffer, contents, copy_at, reserve, push, with_capacity}

abbrev pub wtf16_simd_threshold : ℕ
wtf16_simd_threshold = 96

unfoldable pub is_ascii : List ℕ → Bool
is_ascii bytes = all (λ b. ltb b 0x80) bytes

-- `set_len(written)` on memory whose first `slice_len` bytes were handed out as `out`.
unfoldable pub finish : ℕ → List ℕ → List ℕ → ℕ → Buffer
finish slice_len memory out written = record {
  len = written;
  memory = out ++ drop slice_len memory;
}

-- `from_raw_parts_mut(memory, utf8_len)` handed to a conversion, and `set_len(written)`.
unfoldable pub simd_write : ℕ → List ℕ → (List ℕ → ℕ × List ℕ) → Option Buffer
unfolding finish
simd_write utf8_len memory convert = do
  assert (leb utf8_len (length memory))
  let (written, out) = convert (take utf8_len memory)
  some (finish utf8_len memory out written)

-- A result and the stack buffer that it may borrow from: its first `n` bytes.
pub data Cow : Type 0 where
  borrowed : ℕ → Cow
  owned : List ℕ → Cow

-- The text of a result. A slice of the buffer that is too long panics.
unfoldable pub cow_text : Cow × List ℕ → Option (List ℕ)
cow_text (borrowed n, buffer) = do assert (leb n (length buffer)); some (take n buffer)
cow_text (owned text, buffer) = some text

-- Whether the units go to the library.
unfoldable pub takes_simd : Simdutf → List ℕ → Bool
takes_simd s units = leb wtf16_simd_threshold (length units) && s.validate_utf16le units

module _ (host : Host) where
  unfoldable pub latin1_to_string_simd : Simdutf → List ℕ → Option (List ℕ)
  latin1_to_string_simd s bytes =
      let utf8_len = s.utf8_length_from_latin1 bytes in
      do
        buf ← simd_write utf8_len (host.alloc utf8_len) (s.convert_latin1_to_utf8 bytes)
        assert (buf.len == utf8_len)
        some (contents buf)

  unfoldable pub latin1_to_string_scalar : List ℕ → Option (List ℕ)
  latin1_to_string_scalar bytes = do
    (written, out) ← latin1_to_utf8 (length bytes) bytes (host.alloc (length bytes * 2))
    some (take written out)

  unfoldable pub latin1_to_string : List ℕ → Option (List ℕ)
  latin1_to_string bytes = do
    assert (not (is_ascii bytes))
    elim host.simdutf [
      | none ↦ latin1_to_string_scalar bytes
      | some s ↦ latin1_to_string_simd s bytes
    ]

  -- `buf.push(result.unwrap_or('\u{FFFD}'))` for each result.
  unfoldable pub push_lossy : Buffer → List Decoded → Option Buffer
  push_lossy buf [] = some buf
  push_lossy buf (result ∷ rest) = do
    buf' ← push host buf (encode_utf8 (replace result))
    push_lossy buf' rest

  unfoldable pub wtf16_to_string_simd : Simdutf → List ℕ → Option (List ℕ)
  wtf16_to_string_simd s units =
      let utf8_len = s.utf8_length_from_utf16le units in
      do
        buf ← simd_write utf8_len (host.alloc utf8_len) (s.convert_utf16le_to_utf8 units)
        assert (buf.len == utf8_len)
        some (contents buf)

  unfoldable pub wtf16_to_string_scalar : List ℕ → Option (List ℕ)
  wtf16_to_string_scalar units = do
    buf ← push_lossy (with_capacity host (length units * 3)) (decode_utf16 units)
    some (contents buf)

  unfoldable pub wtf16_to_string : List ℕ → Option (List ℕ)
  wtf16_to_string units = elim host.simdutf [
    | none ↦ wtf16_to_string_scalar units
    | some s ↦
        if takes_simd s units then wtf16_to_string_simd s units else wtf16_to_string_scalar units
  ]

  unfoldable pub wtf16_into_string_simd : Simdutf → List ℕ → Buffer → Option Buffer
  wtf16_into_string_simd s units buf =
      let utf8_len = s.utf8_length_from_utf16le units in
      let buf' = reserve host buf utf8_len in
      do
        out ← simd_write utf8_len buf'.memory (s.convert_utf16le_to_utf8 units)
        assert (out.len == utf8_len)
        some out

  unfoldable pub wtf16_into_string_scalar : List ℕ → Buffer → Option Buffer
  wtf16_into_string_scalar units buf =
      push_lossy (reserve host buf (length units * 3)) (decode_utf16 units)

  unfoldable pub wtf16_into_string : List ℕ → Buffer → Option Buffer
  wtf16_into_string units buf = elim host.simdutf [
    | none ↦ wtf16_into_string_scalar units buf
    | some s ↦
        if takes_simd s units
        then wtf16_into_string_simd s units buf
        else wtf16_into_string_scalar units buf
  ]

  unfoldable pub latin1_to_cow_scalar : List ℕ → List ℕ → Option (Cow × List ℕ)
  latin1_to_cow_scalar bytes buffer =
      let fits = (do
        (written, out) ← latin1_to_utf8 (length bytes) bytes buffer
        some (borrowed written, out)) in
      let spills = (do text ← latin1_to_string bytes; some (owned text, buffer)) in
      if leb (length bytes * 2) (length buffer) then fits else spills

  unfoldable pub latin1_to_cow_simd : Simdutf → List ℕ → List ℕ → Option (Cow × List ℕ)
  latin1_to_cow_simd s bytes buffer =
      let utf8_len = s.utf8_length_from_latin1 bytes in
      let fits = (do
        out ← simd_write utf8_len buffer (s.convert_latin1_to_utf8 bytes)
        some (borrowed out.len, out.memory)) in
      let spills = (do text ← latin1_to_string bytes; some (owned text, buffer)) in
      if leb utf8_len (length buffer) then fits else spills

  unfoldable pub latin1_to_cow_str : List ℕ → List ℕ → Option (Cow × List ℕ)
  latin1_to_cow_str bytes buffer = elim host.simdutf [
    | none ↦ latin1_to_cow_scalar bytes buffer
    | some s ↦ latin1_to_cow_simd s bytes buffer
  ]

  unfoldable pub wtf16_to_cow_simd : Simdutf → List ℕ → List ℕ → Option (Cow × List ℕ)
  wtf16_to_cow_simd s units buffer =
      let utf8_len = s.utf8_length_from_utf16le units in
      let fits = (do
        out ← simd_write utf8_len buffer (s.convert_utf16le_to_utf8 units)
        some (borrowed out.len, out.memory)) in
      let spills = (do text ← wtf16_to_string units; some (owned text, buffer)) in
      if leb utf8_len (length buffer) then fits else spills

-- The loop of the scalar path: `none` for the position is the `break`.
unfoldable pub fill : List Decoded → ℕ → List ℕ → Option (Option ℕ × List ℕ)
fill [] pos buffer = some (some pos, buffer)
fill (result ∷ rest) pos buffer =
    let encoded = encode_utf8 (replace result) in
    let next = (do
      buffer' ← copy_at buffer pos encoded
      fill rest (pos + length encoded) buffer') in
    if ltb (length buffer) (pos + length encoded) then some (none, buffer) else next

-- `String::from_utf16_lossy` of the standard library is the text of the lossy characters.
unfoldable pub wtf16_to_cow_scalar : List ℕ → List ℕ → Option (Cow × List ℕ)
wtf16_to_cow_scalar units buffer = do
  (end, buffer') ← fill (decode_utf16 units) 0 buffer
  elim end [
    | some pos ↦ some (borrowed pos, buffer')
    | none ↦ some (owned (utf8 (lossy units)), buffer')
  ]

module _ (host : Host) where
  unfoldable pub wtf16_to_cow_str : List ℕ → List ℕ → Option (Cow × List ℕ)
  wtf16_to_cow_str units buffer = elim host.simdutf [
    | none ↦ wtf16_to_cow_scalar units buffer
    | some s ↦
        if takes_simd s units
        then wtf16_to_cow_simd host s units buffer
        else wtf16_to_cow_scalar units buffer
  ]
