-- ===== src/Strings/View.antt =====
-- `ValueView` and the methods of `String` that make Rust text (src/string.rs).
--
-- The V8 string is a parameter: its length, its characters' width, and the memory that its view
-- points to.
pub mod Text
use rusty_v.Base.{
  ℕ, ◌+◌, ◌*◌, ◌≤◌, ◌≡◌, ◌==◌, if◌then◌else◌, Bool, true, false, List, [], ◌∷◌, Option, none, some,
  ◌>>=◌, ◌>>◌, All, length, take, leb,
}
use rusty_v.Strings.Utf8.Wellformed.{AllBytes}
use rusty_v.Strings.Utf16.{IsUnit, lossy}
use rusty_v.Strings.Latin1.{latin1_to_utf8}
use rusty_v.Strings.Host.{Host, Buffer, reserve, copy_at}
use rusty_v.Strings.Convert.{
  Cow, borrowed, owned, is_ascii, latin1_to_string, wtf16_to_string, wtf16_into_string,
  latin1_to_cow_str, wtf16_to_cow_str,
}

-- What `v8__String__Length` and the functions of `v8__String__ValueView` report.
pub record RawView : Type 0 where
  pub string_length : ℕ
  pub is_one_byte : Bool
  pub view_length : ℕ
  pub memory : List ℕ

pub data ValueViewData : Type 0 where
  one_byte : List ℕ → ValueViewData
  two_byte : List ℕ → ValueViewData

-- `ValueView::data`.
unfoldable pub data_of : RawView → ValueViewData
data_of v =
    if v.is_one_byte
    then one_byte (take v.view_length v.memory)
    else two_byte (take v.view_length v.memory)

abbrev pub InRange : ValueViewData → Type 0
InRange (one_byte bytes) = AllBytes bytes
InRange (two_byte units) = All IsUnit units

-- What the code relies on in V8: the view spans the string, and its items have their width.
pub record IsFaithful (v : RawView) : Type 0 where
  pub spans : v.view_length ≡ v.string_length
  pub readable : v.view_length ≤ length v.memory
  pub ranged : InRange (data_of v)

-- The characters of a string, with U+FFFD for a surrogate that has no partner.
unfoldable pub characters : ValueViewData → List ℕ
characters (one_byte bytes) = bytes
characters (two_byte units) = lossy units

-- A text that may be borrowed from the string itself.
pub data Borrow : Type 0 where
  of_string : List ℕ → Borrow
  of_heap : List ℕ → Borrow

-- `ValueView::as_str`.
unfoldable pub as_str : RawView → Option (List ℕ)
as_str v = elim (data_of v) [
  | one_byte bytes ↦ if is_ascii bytes then some bytes else none
  | two_byte units ↦ none
]

module _ (host : Host) where
  -- `ValueView::to_cow_lossy`.
  unfoldable pub to_cow_lossy : RawView → Option Borrow
  to_cow_lossy v = elim (data_of v) [
    | one_byte bytes ↦
        let other = (do text ← latin1_to_string host bytes; some (of_heap text)) in
        if is_ascii bytes then some (of_string bytes) else other
    | two_byte units ↦ do text ← wtf16_to_string host units; some (of_heap text)
  ]

  -- `String::to_rust_string_lossy`.
  unfoldable pub to_rust_string_lossy : RawView → Option (List ℕ)
  to_rust_string_lossy v =
      let viewed : Option (List ℕ) = elim (data_of v) [
        | one_byte bytes ↦ if is_ascii bytes then some bytes else latin1_to_string host bytes
        | two_byte units ↦ wtf16_to_string host units
      ] in
      if v.string_length == 0 then some [] else viewed

  unfoldable pub write_ascii : List ℕ → Buffer → Option Buffer
  write_ascii bytes buf =
      let buf' = reserve host buf (length bytes) in
      do memory ← copy_at buf'.memory 0 bytes; some (record { len = length bytes; memory = memory })

  unfoldable pub write_latin1 : List ℕ → Buffer → Option Buffer
  write_latin1 bytes buf =
      let buf' = reserve host buf (length bytes * 2) in
      do
        (written, memory) ← latin1_to_utf8 (length bytes) bytes buf'.memory
        some (record { len = written; memory = memory })

  -- `String::write_utf8_into`: `clear` keeps the allocation.
  unfoldable pub write_utf8_into : RawView → Buffer → Option Buffer
  write_utf8_into v buf =
      let cleared : Buffer = record buf { len = 0 } in
      let viewed : Option Buffer = elim (data_of v) [
        | one_byte bytes ↦
            if is_ascii bytes then write_ascii bytes cleared else write_latin1 bytes cleared
        | two_byte units ↦ wtf16_into_string host units cleared
      ] in
      if v.string_length == 0 then some cleared else viewed

  -- The one-byte strings of `to_rust_cow_lossy` that are ASCII.
  unfoldable pub ascii_to_cow : List ℕ → List ℕ → Option (Cow × List ℕ)
  ascii_to_cow bytes buffer =
      let fits = (do buffer' ← copy_at buffer 0 bytes; some (borrowed (length bytes), buffer')) in
      if leb (length bytes) (length buffer) then fits else some (owned bytes, buffer)

  -- `String::to_rust_cow_lossy`, with the caller's buffer of N bytes.
  unfoldable pub to_rust_cow_lossy : RawView → List ℕ → Option (Cow × List ℕ)
  to_rust_cow_lossy v buffer =
      let viewed : Option (Cow × List ℕ) = elim (data_of v) [
        | one_byte bytes ↦
            if is_ascii bytes
            then ascii_to_cow bytes buffer
            else latin1_to_cow_str host bytes buffer
        | two_byte units ↦ wtf16_to_cow_str host units buffer
      ] in
      if v.string_length == 0 then some (borrowed 0, buffer) else viewed
