-- ===== src/Strings/Latin1.antt =====
-- `latin1_to_utf8` of src/string.rs: Latin-1 bytes transcoded through raw pointers.
--
-- `inbuf` and `outbuf` are the bytes that the two pointers may read and write; an access past
-- them is a fault, `none`. A `u64` is read and written in little-endian order.
pub mod Words
pub mod Buffer
pub mod Encodes
pub mod Whole
use rusty_v.Base.{
  ℕ, zero, suc, ◌+◌, ◌*◌, ◌/◌, ◌%◌, ◌^◌, bit_and, bit_or, ltb, leb, ◌==◌, if◌then◌else◌, List, ◌∷◌,
  [], Option, none, some, ◌>>=◌, get_elem?, write_at, while,
}

-- The local variables, with the memory that `outbuf` points to.
pub record Cursor : Type 0 where
  pub input : ℕ
  pub output : ℕ
  pub outbuf : List ℕ

-- `n` bytes at `i` as one little-endian word: `read_unaligned`, where n = 8.
unfoldable pub read_le : ℕ → List ℕ → ℕ → Option ℕ
read_le zero buf i = some 0
read_le (suc n) buf i = do
  low ← get_elem? buf i
  high ← read_le n buf (i + 1)
  some (low + 256 * high)

-- `write_unaligned`.
unfoldable pub write_le : ℕ → List ℕ → ℕ → ℕ → Option (List ℕ)
write_le zero buf i word = some buf
write_le (suc n) buf i word = do
  buf' ← write_at buf i (word % 256)
  write_le n buf' (i + 1) (word / 256)

-- The body of both byte loops.
unfoldable pub convert_byte : List ℕ → Cursor → Option Cursor
convert_byte inbuf s = do
  byte ← get_elem? inbuf s.input
  let narrow = do
    outbuf ← write_at s.outbuf s.output byte
    some (record { input = s.input + 1; output = s.output + 1; outbuf = outbuf })
  let wide = do
    first ← write_at s.outbuf s.output (bit_or (byte / 2 ^ 6) 0b1100_0000)
    second ← write_at first (s.output + 1) (bit_or (bit_and byte 0b0011_1111) 0b1000_0000)
    some (record { input = s.input + 1; output = s.output + 2; outbuf = second })
  if ltb byte 0x80 then narrow else wide

-- `while input < end`, both in a chunk and at the remaining bytes.
unfoldable pub convert_bytes : List ℕ → ℕ → ℕ → Cursor → Option Cursor
convert_bytes inbuf end = while (λ (s : Cursor). ltb s.input end) (convert_byte inbuf)

-- The body of the loop over chunks of eight bytes.
unfoldable pub convert_chunk : List ℕ → Cursor → Option Cursor
convert_chunk inbuf s = do
  chunk ← read_le 8 inbuf s.input
  let bulk = do
    outbuf ← write_le 8 s.outbuf s.output chunk
    some (record { input = s.input + 8; output = s.output + 8; outbuf = outbuf })
  let each = convert_bytes inbuf (s.input + 8) 9 s
  if bit_and chunk 0x8080_8080_8080_8080 == 0 then bulk else each

-- What is written through `outbuf`, with the count that is returned.
unfoldable pub latin1_to_utf8 : ℕ → List ℕ → List ℕ → Option (ℕ × List ℕ)
latin1_to_utf8 input_length inbuf outbuf = do
  chunks ←
      while (λ (s : Cursor). leb (s.input + 8) input_length) (convert_chunk inbuf)
        (input_length + 1) (record { input = 0; output = 0; outbuf = outbuf })
  done ← convert_bytes inbuf input_length (input_length + 1) chunks
  some (done.output, done.outbuf)
