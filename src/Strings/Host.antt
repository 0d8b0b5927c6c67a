-- ===== src/Strings/Host.antt =====
-- What the string code takes from elsewhere: memory, the V8 string, and the simdutf library.
pub mod Growth
use rusty_v.Base.{
  ℕ, ◌+◌, ◌≤◌, ◌≡◌, Bool, true, List, ◌++◌, Option, All, length, take, drop, ltb, leb,
  if◌then◌else◌, none, write_at, [], ◌∷◌, ◌>>=◌, some,
}
use rusty_v.Strings.Utf8.{utf8}
use rusty_v.Strings.Utf8.Wellformed.{AllBytes}
use rusty_v.Strings.Utf16.{IsUnit, well_formed, lossy}

-- The functions of the simdutf library that `crate::simdutf` wraps. A conversion returns the count
-- of bytes written, and its output slice as it leaves it.
pub record Simdutf : Type 0 where
  pub validate_utf16le : List ℕ → Bool
  pub utf8_length_from_utf16le : List ℕ → ℕ
  pub convert_utf16le_to_utf8 : List ℕ → List ℕ → ℕ × List ℕ
  pub utf8_length_from_latin1 : List ℕ → ℕ
  pub convert_latin1_to_utf8 : List ℕ → List ℕ → ℕ × List ℕ

-- A conversion writes `text` at the front of its output, and leaves the rest.
abbrev pub Writes : List ℕ → List ℕ → ℕ × List ℕ → Type 0
Writes text output r = (r.0 ≡ length text) × (r.1 ≡ text ++ drop (length text) output)

-- What the library documents.
pub record IsDocumented (s : Simdutf) : Type 0 where
  pub validates : (units : List ℕ) → s.validate_utf16le units ≡ true → well_formed units ≡ true
  pub length_utf16 :
      (units : List ℕ)
      → well_formed units ≡ true
      → s.utf8_length_from_utf16le units ≡ length (utf8 (lossy units))
  pub converts_utf16 :
      (units output : List ℕ)
      → well_formed units ≡ true
      → length (utf8 (lossy units)) ≤ length output
      → Writes (utf8 (lossy units)) output (s.convert_utf16le_to_utf8 units output)
  pub length_latin1 :
      (bytes : List ℕ) → AllBytes bytes → s.utf8_length_from_latin1 bytes ≡ length (utf8 bytes)
  pub converts_latin1 :
      (bytes output : List ℕ)
      → AllBytes bytes
      → length (utf8 bytes) ≤ length output
      → Writes (utf8 bytes) output (s.convert_latin1_to_utf8 bytes output)

-- `alloc n` is a fresh allocation of at least `n` bytes, of any content; `simdutf` is there with the
-- cargo feature of that name.
pub record Host : Type 0 where
  pub alloc : ℕ → List ℕ
  pub alloc_room : (n : ℕ) → n ≤ length (alloc n)
  pub simdutf : Option Simdutf

-- The library, if there, does what it documents.
abbrev pub IsSound : Option Simdutf → Type 0
IsSound none = Unit
IsSound (some s) = IsDocumented s

-- `std::string::String`, or the `Vec<u8>` below it: `len` bytes of an allocation.
pub record Buffer : Type 0 where
  pub len : ℕ
  pub memory : List ℕ

unfoldable pub contents : Buffer → List ℕ
contents b = take b.len b.memory

-- `ptr::copy_nonoverlapping` to `memory + i`.
unfoldable pub copy_at : List ℕ → ℕ → List ℕ → Option (List ℕ)
copy_at memory i [] = some memory
copy_at memory i (b ∷ bs) = do memory' ← write_at memory i b; copy_at memory' (i + 1) bs

-- `reserve`: what is there is kept, also where it moves.
unfoldable pub reserve : Host → Buffer → ℕ → Buffer
reserve host b n =
    if leb (b.len + n) (length b.memory)
    then b
    else record b { memory = take b.len b.memory ++ host.alloc n }

-- `push` and `push_str`, by their bytes.
unfoldable pub push : Host → Buffer → List ℕ → Option Buffer
push host b bytes =
    let b' = reserve host b (length bytes) in
    do
      memory ← copy_at b'.memory b'.len bytes
      some (record { len = b'.len + length bytes; memory = memory })

unfoldable pub with_capacity : Host → ℕ → Buffer
with_capacity host n = record { len = 0; memory = host.alloc n }
