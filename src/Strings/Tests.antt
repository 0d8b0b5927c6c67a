-- ===== src/Strings/Tests.antt =====
-- Runs of the string code, and instances of its theorems.
use rusty_v.Base.{
  ℕ, ◌≤◌, ◌≡◌, refl, ◌≢◌, List, [], ◌∷◌, ◌++◌, none, some, arith, take, drop, length, true, false,
  replicate, length-replicate,
}
use rusty_v.Strings.Utf8.{utf8, encode_utf8}
use rusty_v.Strings.Utf16.{lossy, well_formed}
use rusty_v.Strings.Latin1.{latin1_to_utf8}
use rusty_v.Strings.Latin1.Whole.{latin1_to_utf8_lem}
use rusty_v.Strings.Host.{Simdutf, IsDocumented, Host, Buffer, contents}
use rusty_v.Strings.Host.Growth.{Gives, IsText}
use rusty_v.Strings.Convert.{takes_simd, wtf16_into_string, wtf16_to_cow_str}
use rusty_v.Strings.Convert.Owned.{wtf16_into_string_overwrites}
use rusty_v.Strings.Convert.Borrowed.{Shows, Fits, wtf16_to_cow_str-Fits}
use rusty_v.Strings.View.{
  RawView, data_of, IsFaithful, to_rust_string_lossy, write_utf8_into, to_rust_cow_lossy,
}
use rusty_v.Strings.View.Text.{
  text_of, to_rust_string_lossy-text_of, write_utf8_into-Gives, to_rust_cow_lossy-Shows,
}

-- A library that does what simdutf documents.
abbrev reference : Simdutf
reference = record {
  validate_utf16le = well_formed;
  utf8_length_from_utf16le = λ units. length (utf8 (lossy units));
  convert_utf16le_to_utf8 = λ units output. (
    length (utf8 (lossy units)),
    utf8 (lossy units) ++ drop (length (utf8 (lossy units))) output,
  );
  utf8_length_from_latin1 = λ bytes. length (utf8 bytes);
  convert_latin1_to_utf8 =
      λ bytes output. (length (utf8 bytes), utf8 bytes ++ drop (length (utf8 bytes)) output);
}

reference-IsDocumented : IsDocumented reference
reference-IsDocumented = record {
  validates = λ units e. e;
  length_utf16 = λ units e. refl;
  converts_utf16 = λ units output e h. (refl, refl);
  length_latin1 = λ bytes e. refl;
  converts_latin1 = λ bytes output e h. (refl, refl);
}

-- Fresh memory reads as 0xaa.
abbrev fresh : ℕ → List ℕ
fresh n = replicate n 0xaa

fresh_room : (n : ℕ) → n ≤ length (fresh n)
fresh_room n = let e : length (fresh n) ≡ n = length-replicate n 0xaa in omega arith

abbrev plain : Host
plain = record { alloc = fresh; alloc_room = fresh_room; simdutf = none }

abbrev simd : Host
simd = record { alloc = fresh; alloc_room = fresh_room; simdutf = some reference }

-- "Grüße, Welt" in Latin-1.
abbrev greeting : List ℕ
greeting = 71 ∷ 114 ∷ 252 ∷ 223 ∷ 101 ∷ 44 ∷ 32 ∷ 87 ∷ 101 ∷ 108 ∷ 116 ∷ []

-- An emoji, "A", and a high surrogate that has no partner.
abbrev broken : List ℕ
broken = 0xd83d ∷ 0xde00 ∷ 65 ∷ 0xd83d ∷ []

abbrev paired : List ℕ
paired = 0xd83d ∷ 0xde00 ∷ 65 ∷ []

abbrev latin1_view : RawView
latin1_view = record { string_length = 11; is_one_byte = true; view_length = 11; memory = greeting }

abbrev broken_view : RawView
broken_view = record { string_length = 4; is_one_byte = false; view_length = 4; memory = broken }

latin1_view-IsFaithful : IsFaithful latin1_view
unfolding data_of
latin1_view-IsFaithful = record { spans = refl; readable = omega arith; ranged = omega arith }

broken_view-IsFaithful : IsFaithful broken_view
unfolding data_of
broken_view-IsFaithful = record { spans = refl; readable = omega arith; ranged = omega arith }

emoji : utf8 (lossy broken) ≡ 0xf0 ∷ 0x9f ∷ 0x98 ∷ 0x80 ∷ 65 ∷ 0xef ∷ 0xbf ∷ 0xbd ∷ []
unfolding utf8 encode_utf8 lossy
emoji = refl

-- Two chunks, the first of plain letters.
abbrev blank : List ℕ
blank = replicate 40 0

abbrev long_text : List ℕ
long_text = 72 ∷ 101 ∷ 108 ∷ 108 ∷ 111 ∷ 44 ∷ 32 ∷ 32 ∷ greeting

latin1_to_utf8_lem_example :
    (out : List ℕ) × (latin1_to_utf8 (length long_text) (long_text ++ (1 ∷ [])) blank
      ≡ some (length (utf8 long_text), out))
    × (take (length (utf8 long_text)) out ≡ utf8 long_text)
    × (length out ≡ length blank)
latin1_to_utf8_lem_example = latin1_to_utf8_lem long_text (1 ∷ []) blank (omega arith) (omega arith)

to_rust_string_lossy-text_of_example :
    to_rust_string_lossy plain latin1_view ≡ some (text_of (data_of latin1_view))
to_rust_string_lossy-text_of_example =
    to_rust_string_lossy-text_of plain tt latin1_view latin1_view-IsFaithful

abbrev used : Buffer
used = record { len = 2; memory = 79 ∷ 75 ∷ 0 ∷ [] }

write_utf8_into-Gives_example :
    Gives (text_of (data_of broken_view)) (write_utf8_into plain broken_view used)
write_utf8_into-Gives_example =
    write_utf8_into-Gives plain tt broken_view used broken_view-IsFaithful

to_rust_cow_lossy-Shows_example :
    Shows
      (text_of (data_of latin1_view))
      (replicate 16 0)
      (to_rust_cow_lossy simd latin1_view (replicate 16 0))
to_rust_cow_lossy-Shows_example =
    to_rust_cow_lossy-Shows simd reference-IsDocumented latin1_view (replicate 16 0)
      latin1_view-IsFaithful

wtf16_to_cow_str-Fits_example :
    Fits (utf8 (lossy broken)) (replicate 5 0) (wtf16_to_cow_str simd broken (replicate 5 0))
wtf16_to_cow_str-Fits_example =
    wtf16_to_cow_str-Fits simd reference-IsDocumented broken (replicate 5 0)

-- A hundred letters reach the library.
abbrev hundred : List ℕ
hundred = replicate 100 97

used-IsText : IsText (79 ∷ 75 ∷ []) used
used-IsText = record { count = refl; front = refl; within = omega arith }

hundred_taken : takes_simd reference hundred ≡ true
unfolding takes_simd well_formed
hundred_taken = refl

wtf16_into_string_overwrites_example :
    (out : Buffer) × (wtf16_into_string simd hundred used ≡ some out)
    × (contents out ≡ utf8 (lossy hundred))
    × (contents out ≢ (79 ∷ 75 ∷ []) ++ utf8 (lossy hundred))
wtf16_into_string_overwrites_example =
    wtf16_into_string_overwrites simd reference hundred (79 ∷ 75 ∷ []) used refl
      reference-IsDocumented hundred_taken used-IsText (λ e. cc)
