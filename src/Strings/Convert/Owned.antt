-- ===== src/Strings/Convert/Owned.antt =====
-- The helpers that make an owned string give the UTF-8 encoding of the characters.
use rusty_v.Base.{
  ℕ, ◌*◌, ◌≤◌, ◌≡◌, refl, ◌∙◌, ap, sym, List, [], ◌∷◌, ◌++◌, Option, none, some, inl, inr, take,
  drop, length, length-append, append-nil, append_assoc, take-append, length-take, length-drop,
  drop-length, arith, if◌then◌else◌, true, false, Bool-cases, le→leb, ≡→==, map, ◌≢◌,
}
use rusty_v.Strings.Utf8.{utf8, encode_utf8}
use rusty_v.Strings.Utf8.Wellformed.{AllBytes}
use rusty_v.Strings.Utf16.{Decoded, decode_utf16, replace, lossy, well_formed}
use rusty_v.Strings.Latin1.Whole.{latin1_to_utf8_lem}
use rusty_v.Strings.Host.{
  Simdutf, IsDocumented, IsSound, Writes, Host, Buffer, contents, reserve, with_capacity,
}
use rusty_v.Strings.Host.Growth.{IsText, Gives, contents-IsText, push-Gives, reserve-IsText}
use rusty_v.Strings.Convert.{
  is_ascii, simd_write, latin1_to_string, latin1_to_string_simd, latin1_to_string_scalar,
  takes_simd, push_lossy, wtf16_to_string, wtf16_to_string_simd, wtf16_to_string_scalar,
  wtf16_into_string, wtf16_into_string_simd, wtf16_into_string_scalar,
}

-- A conversion that writes `text` into a slice of its length fills the buffer with it.
pub record Filled (text memory : List ℕ) (r : Option Buffer) : Type 0 where
  pub gives : Gives text r
  pub size : length gives.out.memory ≡ length memory

pub simd_write-Filled :
    (n : ℕ) (text memory : List ℕ) (convert : List ℕ → ℕ × List ℕ)
    → n ≡ length text
    → n ≤ length memory
    → Writes text (take n memory) (convert (take n memory))
    → Filled text memory (simd_write n memory convert)
unfolding simd_write
simd_write-Filled n text memory convert exact room w =
    let slice : length (take n memory) ≡ n = length-take n memory room in
    let whole : drop (length text) (take n memory) ≡ [] =
      ap (λ k. drop k (take n memory)) (sym exact ∙ sym slice) ∙ drop-length (take n memory) in
    let out : (convert (take n memory)).1 ≡ text =
      w.1 ∙ (ap (λ t. text ++ t) whole ∙ append-nil text) in
    record {
      gives = record {
        out = record { len = length text; memory = text ++ drop n memory };
        returns = rw (le→leb n (length memory) room, w.0, out);
        text_of = record {
          count = refl;
          front = take-append text _;
          within = omega (arith, length-append text (drop n memory));
        };
      };
      size = omega (arith, length-append text (drop n memory), length-drop n memory room);
    }

pub takes_simd-valid :
    (s : Simdutf) (units : List ℕ)
    → IsDocumented s
    → takes_simd s units ≡ true
    → well_formed units ≡ true
unfolding takes_simd
takes_simd-valid s units doc e = doc.validates units (ground arith)

append_self : (xs ys : List ℕ) → ys ≡ xs ++ ys → xs ≡ []
append_self [] ys e = refl
append_self (x ∷ xs) ys e = absurd (omega (arith, ap length e, length-append (x ∷ xs) ys))

module _ (host : Host) where
  latin1_to_string-simd :
      (s : Simdutf) (bytes : List ℕ)
      → IsDocumented s
      → AllBytes bytes
      → latin1_to_string_simd host s bytes ≡ some (utf8 bytes)
  unfolding latin1_to_string_simd
  latin1_to_string-simd s bytes doc byte =
      let exact = doc.length_latin1 bytes byte in
      let n = s.utf8_length_from_latin1 bytes in
      let f =
        simd_write-Filled n (utf8 bytes) (host.alloc n) (s.convert_latin1_to_utf8 bytes) exact
          (host.alloc_room n)
          (doc.converts_latin1 bytes _ byte
            (omega (arith, length-take n (host.alloc n) (host.alloc_room n)))) in
      rw (
        f.gives.returns,
        ≡→== f.gives.out.len n (f.gives.text_of.count ∙ sym exact),
        contents-IsText f.gives.text_of,
      )

  latin1_to_string-scalar :
      (bytes : List ℕ) → AllBytes bytes → latin1_to_string_scalar host bytes ≡ some (utf8 bytes)
  unfolding latin1_to_string_scalar
  latin1_to_string-scalar bytes byte =
      let room = host.alloc_room (length bytes * 2) in
      let (out, returns, front, size) =
        latin1_to_utf8_lem bytes [] (host.alloc (length bytes * 2)) byte (omega arith) in
      rw (rw append-nil at returns, front)

  pub latin1_to_string-utf8 :
      (bytes : List ℕ)
      → IsSound host.simdutf
      → AllBytes bytes
      → is_ascii bytes ≡ false
      → latin1_to_string host bytes ≡ some (utf8 bytes)
  unfolding latin1_to_string
  latin1_to_string-utf8 bytes sound byte wide = rw wide (library host.simdutf sound)
    where
      library :
          (o : Option Simdutf)
          → IsSound o
          → elim o as (λ _. Option (List ℕ)) [
            | none ↦ latin1_to_string_scalar host bytes
            | some s ↦ latin1_to_string_simd host s bytes
          ]
            ≡ some (utf8 bytes)
      library none h = latin1_to_string-scalar bytes byte
      library (some s) doc = latin1_to_string-simd s bytes doc byte

  push_lossy-Gives :
      (ds : List Decoded) (text : List ℕ) (b : Buffer)
      → IsText text b
      → Gives (text ++ utf8 (map replace ds)) (push_lossy host b ds)
  unfolding push_lossy utf8
  push_lossy-Gives [] text b t = record { out = b; returns = refl; text_of = rw append-nil t }
  push_lossy-Gives (d ∷ ds) text b t =
      let one = push-Gives host b (encode_utf8 (replace d)) t in
      let rest = push_lossy-Gives ds (text ++ encode_utf8 (replace d)) one.out one.text_of in
      record {
        out = rest.out;
        returns = rw one.returns rest.returns;
        text_of = rw (← append_assoc) rest.text_of;
      }

  wtf16_to_string-simd :
      (s : Simdutf) (units : List ℕ)
      → IsDocumented s
      → well_formed units ≡ true
      → wtf16_to_string_simd host s units ≡ some (utf8 (lossy units))
  unfolding wtf16_to_string_simd
  wtf16_to_string-simd s units doc ok =
      let exact = doc.length_utf16 units ok in
      let n = s.utf8_length_from_utf16le units in
      let f =
        simd_write-Filled n (utf8 (lossy units)) (host.alloc n) (s.convert_utf16le_to_utf8 units)
          exact (host.alloc_room n)
          (doc.converts_utf16 units _ ok
            (omega (arith, length-take n (host.alloc n) (host.alloc_room n)))) in
      rw (
        f.gives.returns,
        ≡→== f.gives.out.len n (f.gives.text_of.count ∙ sym exact),
        contents-IsText f.gives.text_of,
      )

  wtf16_to_string-scalar :
      (units : List ℕ) → wtf16_to_string_scalar host units ≡ some (utf8 (lossy units))
  unfolding wtf16_to_string_scalar with_capacity lossy
  wtf16_to_string-scalar units =
      let b = with_capacity host (length units * 3) in
      let g =
        push_lossy-Gives (decode_utf16 units) [] b
          (record { count = refl; front = refl; within = omega arith }) in
      rw (g.returns, contents-IsText g.text_of)

  pub wtf16_to_string-utf8 :
      (units : List ℕ)
      → IsSound host.simdutf
      → wtf16_to_string host units ≡ some (utf8 (lossy units))
  unfolding wtf16_to_string
  wtf16_to_string-utf8 units sound = library host.simdutf sound
    where
      library :
          (o : Option Simdutf)
          → IsSound o
          → elim o as (λ _. Option (List ℕ)) [
            | none ↦ wtf16_to_string_scalar host units
            | some s ↦
                if takes_simd s units
                then wtf16_to_string_simd host s units
                else wtf16_to_string_scalar host units
          ]
            ≡ some (utf8 (lossy units))
      library none h = wtf16_to_string-scalar units
      library (some s) doc = elim (Bool-cases (takes_simd s units)) [
        | inl e ↦ rw e (wtf16_to_string-simd s units doc (takes_simd-valid s units doc e))
        | inr e ↦ rw e (wtf16_to_string-scalar units)
      ]

  -- Below the threshold, and on ill-formed text, the helper appends.
  pub wtf16_into_string_scalar-Gives :
      (units text : List ℕ) (buf : Buffer)
      → IsText text buf
      → Gives (text ++ utf8 (lossy units)) (wtf16_into_string_scalar host units buf)
  unfolding wtf16_into_string_scalar lossy
  wtf16_into_string_scalar-Gives units text buf t =
      push_lossy-Gives (decode_utf16 units) text _ (reserve-IsText host buf (length units * 3) t).0

  -- The library's output replaces what the buffer held.
  pub wtf16_into_string_simd-Gives :
      (s : Simdutf) (units text : List ℕ) (buf : Buffer)
      → IsDocumented s
      → well_formed units ≡ true
      → IsText text buf
      → Gives (utf8 (lossy units)) (wtf16_into_string_simd host s units buf)
  unfolding wtf16_into_string_simd
  wtf16_into_string_simd-Gives s units text buf doc ok t =
      let exact = doc.length_utf16 units ok in
      let n = s.utf8_length_from_utf16le units in
      let (kept, room) = reserve-IsText host buf n t in
      let memory = (reserve host buf n).memory in
      let fits : n ≤ length memory = omega arith in
      let f =
        simd_write-Filled n (utf8 (lossy units)) memory (s.convert_utf16le_to_utf8 units) exact fits
          (doc.converts_utf16 units _ ok (omega (arith, length-take n memory fits))) in
      record {
        out = f.gives.out;
        returns = rw (f.gives.returns, ≡→== f.gives.out.len n (f.gives.text_of.count ∙ sym exact));
        text_of = f.gives.text_of;
      }

  -- Into an empty buffer, both ways give the same.
  pub wtf16_into_string-Gives :
      (units : List ℕ) (buf : Buffer)
      → IsSound host.simdutf
      → IsText [] buf
      → Gives (utf8 (lossy units)) (wtf16_into_string host units buf)
  unfolding wtf16_into_string
  wtf16_into_string-Gives units buf sound t = library host.simdutf sound
    where
      library :
          (o : Option Simdutf)
          → IsSound o
          → Gives (utf8 (lossy units)) (elim o as (λ _. Option Buffer) [
            | none ↦ wtf16_into_string_scalar host units buf
            | some s ↦
                if takes_simd s units
                then wtf16_into_string_simd host s units buf
                else wtf16_into_string_scalar host units buf
          ])
      library none h = wtf16_into_string_scalar-Gives units [] buf t
      library (some s) doc = elim (Bool-cases (takes_simd s units)) [
        | inl e ↦
            rw e
              (wtf16_into_string_simd-Gives s units [] buf doc (takes_simd-valid s units doc e) t)
        | inr e ↦ rw e (wtf16_into_string_scalar-Gives units [] buf t)
      ]

  -- When the documented simdutf library is there and takes the units, `wtf16_into_string` on a buffer
  -- that holds some text returns the encoding of the units alone: it does not append to that text.
  pub wtf16_into_string_overwrites :
      (s : Simdutf) (units text : List ℕ) (buf : Buffer)
      → host.simdutf ≡ some s
      → IsDocumented s
      → takes_simd s units ≡ true
      → IsText text buf
      → text ≢ []
      → (out : Buffer) × (wtf16_into_string host units buf ≡ some out)
        × (contents out ≡ utf8 (lossy units))
        × (contents out ≢ text ++ utf8 (lossy units))
  unfolding wtf16_into_string
  wtf16_into_string_overwrites s units text buf there doc go t old =
      let g =
        wtf16_into_string_simd-Gives s units text buf doc (takes_simd-valid s units doc go) t in
      let now = contents-IsText g.text_of in
      (
        g.out,
        ground (arith, g.returns),
        now,
        λ e. old (append_self text (utf8 (lossy units)) (sym now ∙ e)),
      )
