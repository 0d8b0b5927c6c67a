-- ===== src/Strings/View/Text.antt =====
-- Every method of a string gives the UTF-8 encoding of its characters.
use rusty_v.Base.{
  ℕ, ◌*◌, ◌≤◌, ◌≡◌, refl, ◌∙◌, List, [], ◌∷◌, Option, none, some, inl, inr, length, append-nil,
  arith, leb, true, Bool-cases, leb→le, if◌then◌else◌, ==→≡, ◌==◌, All, ◌>>=◌, ◌↔◌,
}
use rusty_v.Strings.Utf8.{utf8, decode_utf8, IsScalar}
use rusty_v.Strings.Utf8.Wellformed.{AllBytes, decode_utf8-utf8}
use rusty_v.Strings.Utf16.{lossy}
use rusty_v.Strings.Utf16.Lossless.{lossy-IsScalar}
use rusty_v.Strings.Latin1.Words.{IsAscii}
use rusty_v.Strings.Latin1.Buffer.{utf8-ascii, utf8-length_bytes}
use rusty_v.Strings.Latin1.Whole.{latin1_to_utf8_lem}
use rusty_v.Strings.Host.{IsSound, Host, Buffer, reserve}
use rusty_v.Strings.Host.Growth.{IsText, Gives, copy_at-Pushed, reserve-IsText}
use rusty_v.Strings.Convert.{
  Cow, is_ascii, latin1_to_string, latin1_to_cow_str, wtf16_to_string, wtf16_into_string,
  wtf16_to_cow_str,
}
use rusty_v.Strings.Convert.Owned.{
  latin1_to_string-utf8, wtf16_to_string-utf8, wtf16_into_string-Gives,
}
use rusty_v.Strings.Convert.Borrowed.{
  Shows, borrow-Shows, own-Shows, latin1_to_cow_str-Shows, wtf16_to_cow_str-Fits,
}
use rusty_v.Strings.View.{
  RawView, ValueViewData, one_byte, two_byte, data_of, InRange, IsFaithful, characters, Borrow,
  of_string, of_heap, as_str, to_cow_lossy, to_rust_string_lossy, write_ascii, write_latin1,
  write_utf8_into, ascii_to_cow, to_rust_cow_lossy,
}

is_ascii-All : (bytes : List ℕ) → is_ascii bytes ≡ true → All IsAscii bytes
unfolding is_ascii
is_ascii-All [] h = tt
is_ascii-All (b ∷ bs) h = (ground arith, is_ascii-All bs (ground arith))

utf8-is_ascii : (bytes : List ℕ) → is_ascii bytes ≡ true → utf8 bytes ≡ bytes
utf8-is_ascii bytes h = utf8-ascii bytes (is_ascii-All bytes h)

-- The text of a view.
abbrev pub text_of : ValueViewData → List ℕ
text_of d = utf8 (characters d)

bytes-IsScalar : (bytes : List ℕ) → AllBytes bytes → All IsScalar bytes
bytes-IsScalar [] h = tt
bytes-IsScalar (b ∷ bs) h = (inl (omega arith), bytes-IsScalar bs h.1)

pub characters-IsScalar : (d : ValueViewData) → InRange d → All IsScalar (characters d)
unfolding characters
characters-IsScalar (one_byte bytes) h = bytes-IsScalar bytes h
characters-IsScalar (two_byte units) h = lossy-IsScalar units h

-- The text that the methods of a view make decodes as UTF-8 to the characters of the view, when the
-- view's items have their width.
pub decode_utf8-text_of :
    (d : ValueViewData) → InRange d → decode_utf8 (text_of d) ≡ some (characters d)
decode_utf8-text_of d h = decode_utf8-utf8 (characters d) (characters-IsScalar d h)

-- A string of no length has an empty view.
empty_text : (v : RawView) → IsFaithful v → (v.string_length == 0) ≡ true → text_of (data_of v) ≡ []
unfolding data_of characters utf8 lossy
empty_text v f e =
    let none_seen : v.view_length ≡ 0 = f.spans ∙ ==→≡ v.string_length 0 e in
    rw none_seen (elim (Bool-cases v.is_one_byte) [ inl one ↦ rw one | inr two ↦ rw two ])

-- The text of a `Borrow`, wherever it stands.
abbrev pub borrow_text : Borrow → List ℕ
borrow_text (of_string t) = t
borrow_text (of_heap t) = t

module _ (host : Host) (sound : IsSound host.simdutf) where
  view_string :
      (d : ValueViewData)
      → InRange d
      → elim d as (λ _. Option (List ℕ)) [
        | one_byte bytes ↦ if is_ascii bytes then some bytes else latin1_to_string host bytes
        | two_byte units ↦ wtf16_to_string host units
      ]
        ≡ some (text_of d)
  unfolding characters
  view_string (one_byte bytes) h = elim (Bool-cases (is_ascii bytes)) [
    | inl e ↦ rw (e, utf8-is_ascii bytes e)
    | inr e ↦ rw e (latin1_to_string-utf8 host bytes sound h e)
  ]
  view_string (two_byte units) h = wtf16_to_string-utf8 host units sound

  -- With the simdutf library as documented or without it, and on a faithful view of the string,
  -- `to_rust_string_lossy` returns the UTF-8 encoding of the string's characters: no access is out of
  -- bounds and no assertion fails.
  pub to_rust_string_lossy-text_of :
      (v : RawView) → IsFaithful v → to_rust_string_lossy host v ≡ some (text_of (data_of v))
  unfolding to_rust_string_lossy
  to_rust_string_lossy-text_of v f = elim (Bool-cases (v.string_length == 0)) [
    | inl e ↦ rw (e, empty_text v f e)
    | inr e ↦ rw e (view_string (data_of v) f.ranged)
  ]

  write_latin1-Gives :
      (bytes : List ℕ) (buf : Buffer)
      → AllBytes bytes
      → IsText [] buf
      → Gives (utf8 bytes) (write_latin1 host bytes buf)
  unfolding write_latin1
  write_latin1-Gives bytes buf byte t =
      let (kept, room) = reserve-IsText host buf (length bytes * 2) t in
      let memory = (reserve host buf (length bytes * 2)).memory in
      let (out, returns, front, size) = latin1_to_utf8_lem bytes [] memory byte (omega arith) in
      record {
        out = record { len = length (utf8 bytes); memory = out };
        returns = rw (rw append-nil at returns);
        text_of = record {
          count = refl;
          front = front;
          within = omega (arith, utf8-length_bytes bytes byte);
        };
      }

  write_ascii-Gives :
      (bytes : List ℕ) (buf : Buffer) → IsText [] buf → Gives bytes (write_ascii host bytes buf)
  unfolding write_ascii
  write_ascii-Gives bytes buf t =
      let (kept, room) = reserve-IsText host buf (length bytes) t in
      let copy =
        copy_at-Pushed bytes [] (reserve host buf (length bytes)).memory
          (record { room = refl; front = refl }) room in
      record {
        out = record { len = length bytes; memory = copy.out };
        returns = rw copy.returns;
        text_of = record {
          count = refl;
          front = copy.holds.front;
          within = omega (arith, copy.holds.room);
        };
      }

  -- With the simdutf library as documented or without it, and on a faithful view of the string,
  -- `write_utf8_into` returns and, whatever the buffer held, leaves in it the UTF-8 encoding of the
  -- string's characters and nothing else, within the buffer's memory.
  pub write_utf8_into-Gives :
      (v : RawView) (buf : Buffer)
      → IsFaithful v
      → Gives (text_of (data_of v)) (write_utf8_into host v buf)
  unfolding write_utf8_into
  write_utf8_into-Gives v buf f = elim (Bool-cases (v.string_length == 0)) [
    | inl e ↦ rw (e, empty_text v f e) (record { out = cleared; returns = refl; text_of = empty })
    | inr e ↦ rw e (viewed (data_of v) f.ranged)
  ]
    where
      cleared : Buffer
      cleared = record buf { len = 0 }

      empty : IsText [] cleared
      empty = record { count = refl; front = refl; within = omega arith }

      viewed :
          (d : ValueViewData)
          → InRange d
          → Gives (text_of d) (elim d as (λ _. Option Buffer) [
            | one_byte bytes ↦
                if is_ascii bytes
                then write_ascii host bytes cleared
                else write_latin1 host bytes cleared
            | two_byte units ↦ wtf16_into_string host units cleared
          ])
      viewed (one_byte bytes) h =
          unfold characters in
          elim (Bool-cases (is_ascii bytes)) [
            | inl ascii ↦
                rw (ascii, utf8-is_ascii bytes ascii) (write_ascii-Gives bytes cleared empty)
            | inr wide ↦ rw wide (write_latin1-Gives bytes cleared h empty)
          ]
      viewed (two_byte units) h =
          unfold characters in wtf16_into_string-Gives host units cleared sound empty

  ascii_to_cow-Shows : (bytes buffer : List ℕ) → Shows bytes buffer (ascii_to_cow host bytes buffer)
  unfolding ascii_to_cow
  ascii_to_cow-Shows bytes buffer = elim (Bool-cases (leb (length bytes) (length buffer))) [
    | inl fits ↦
        let room : length bytes ≤ length buffer = leb→le _ _ fits in
        let copy =
          copy_at-Pushed bytes [] buffer (record { room = refl; front = refl }) (omega arith) in
        let b =
          borrow-Shows bytes buffer copy.out (length bytes) refl copy.holds.front copy.holds.room
            (omega (arith, copy.holds.room)) in
        record {
          out = b.out;
          returns = rw (fits, copy.returns) b.returns;
          reads = b.reads;
          size = b.size;
        }
    | inr big ↦ rw big (own-Shows bytes buffer)
  ]

  -- With the simdutf library as documented or without it, and on a faithful view of the string,
  -- `to_rust_cow_lossy` returns the UTF-8 encoding of the string's characters, owned or borrowed from
  -- within the caller's buffer, which keeps its size.
  pub to_rust_cow_lossy-Shows :
      (v : RawView) (buffer : List ℕ)
      → IsFaithful v
      → Shows (text_of (data_of v)) buffer (to_rust_cow_lossy host v buffer)
  unfolding to_rust_cow_lossy
  to_rust_cow_lossy-Shows v buffer f = elim (Bool-cases (v.string_length == 0)) [
    | inl e ↦
        rw (e, empty_text v f e) (borrow-Shows [] buffer buffer 0 refl refl refl (omega arith))
    | inr e ↦ rw e (viewed (data_of v) f.ranged)
  ]
    where
      viewed :
          (d : ValueViewData)
          → InRange d
          → Shows (text_of d) buffer (elim d as (λ _. Option (Cow × List ℕ)) [
            | one_byte bytes ↦
                if is_ascii bytes
                then ascii_to_cow host bytes buffer
                else latin1_to_cow_str host bytes buffer
            | two_byte units ↦ wtf16_to_cow_str host units buffer
          ])
      viewed (one_byte bytes) h =
          unfold characters in
          elim (Bool-cases (is_ascii bytes)) [
            | inl ascii ↦ rw (ascii, utf8-is_ascii bytes ascii) (ascii_to_cow-Shows bytes buffer)
            | inr wide ↦ rw wide (latin1_to_cow_str-Shows host sound bytes buffer h wide)
          ]
      viewed (two_byte units) h =
          unfold characters in (wtf16_to_cow_str-Fits host sound units buffer).shows

  -- With the simdutf library as documented or without it, `to_cow_lossy` of a view whose items have
  -- their width gives the UTF-8 encoding of the string's characters, and points into the string just
  -- when `as_str` returns that text.
  pub to_cow_lossy-text_of :
      (v : RawView)
      → InRange (data_of v)
      → (b : Borrow) × (to_cow_lossy host v ≡ some b)
        × (borrow_text b ≡ text_of (data_of v))
        × ((b ≡ of_string (text_of (data_of v))) ↔ (as_str v ≡ some (text_of (data_of v))))
  unfolding to_cow_lossy as_str
  to_cow_lossy-text_of v h = viewed (data_of v) h
    where
      viewed :
          (d : ValueViewData)
          → InRange d
          → (b : Borrow) × (elim d as (λ _. Option Borrow) [
            | one_byte bytes ↦
                if is_ascii bytes
                then some (of_string bytes)
                else (latin1_to_string host bytes >>= λ text. some (of_heap text))
            | two_byte units ↦ wtf16_to_string host units >>= λ text. some (of_heap text)
          ]
              ≡ some b)
            × (borrow_text b ≡ text_of d)
            × ((b ≡ of_string (text_of d)) ↔ (
                elim d as (λ _. Option (List ℕ)) [
                  | one_byte bytes ↦ if is_ascii bytes then some bytes else none
                  | two_byte units ↦ none
                ]
                ≡ some (text_of d)))
      viewed (one_byte bytes) k =
          unfold characters in
          elim (Bool-cases (is_ascii bytes)) [
            | inl ascii ↦
                rw (ascii, utf8-is_ascii bytes ascii)
                  (of_string bytes, refl, refl, (λ _. refl, λ _. refl))
            | inr wide ↦
                rw (wide, latin1_to_string-utf8 host bytes sound k wide)
                  (of_heap (utf8 bytes), refl, refl, (λ e. cc, λ e. cc))
          ]
      viewed (two_byte units) k =
          unfold characters in
          rw (wtf16_to_string-utf8 host units sound)
            (of_heap (utf8 (lossy units)), refl, refl, (λ e. cc, λ e. cc))
