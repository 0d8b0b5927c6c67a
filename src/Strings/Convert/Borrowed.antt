-- ===== src/Strings/Convert/Borrowed.antt =====
-- The helpers that borrow from the caller's buffer give the same text as those that own theirs.
use rusty_v.Base.{
  ℕ, ◌+◌, ◌*◌, ◌≤◌, ◌<◌, ◌≡◌, refl, ap, List, [], ◌∷◌, ◌++◌, Option, none, some, inl, inr, take,
  length, length-append, append-nil, append_assoc, length-take, arith, leb, ltb, true, false,
  Bool-cases, leb→le, leb→gt, le→leb, ltb→lt, map, if◌then◌else◌, ◌⊎◌, ◌>>=◌,
}
use rusty_v.Strings.Utf8.{utf8, encode_utf8}
use rusty_v.Strings.Utf8.Wellformed.{AllBytes}
use rusty_v.Strings.Utf16.{Decoded, decode_utf16, replace, lossy, well_formed}
use rusty_v.Strings.Latin1.Buffer.{Holds, utf8-length_bytes}
use rusty_v.Strings.Latin1.Whole.{latin1_to_utf8_lem}
use rusty_v.Strings.Host.{Simdutf, IsDocumented, IsSound, Host}
use rusty_v.Strings.Host.Growth.{copy_at-Pushed}
use rusty_v.Strings.Convert.{
  Cow, borrowed, owned, cow_text, is_ascii, latin1_to_string, takes_simd, latin1_to_cow_str,
  latin1_to_cow_simd, latin1_to_cow_scalar, wtf16_to_cow_simd, wtf16_to_cow_scalar,
  wtf16_to_cow_str, fill,
}
use rusty_v.Strings.Convert.Owned.{
  simd_write-Filled, takes_simd-valid, latin1_to_string-utf8, wtf16_to_string-utf8,
}

-- `r` returns `text`; where it borrows, `fit` bounds the text within the buffer, which keeps its size.
pub record Shows (text buffer : List ℕ) (r : Option (Cow × List ℕ)) : Type 0 where
  pub out : Cow × List ℕ
  pub returns : r ≡ some out
  pub reads : cow_text out ≡ some text
  pub size : length out.1 ≡ length buffer

pub borrow-Shows :
    (text buffer memory : List ℕ) (n : ℕ)
    → n ≡ length text
    → take (length text) memory ≡ text
    → length memory ≡ length buffer
    → length text ≤ length memory
    → Shows text buffer (some (borrowed n, memory))
unfolding cow_text
borrow-Shows text buffer memory n exact front same room = record {
  out = (borrowed n, memory);
  returns = refl;
  reads = rw (exact, le→leb (length text) (length memory) room, front);
  size = same;
}

pub own-Shows : (text buffer : List ℕ) → Shows text buffer (some (owned text, buffer))
unfolding cow_text
own-Shows text buffer = record {
  out = (owned text, buffer);
  returns = refl;
  reads = refl;
  size = refl;
}

-- The scalar loop stops with all of the text in the buffer, or because it does not fit.
record Fills (text : List ℕ) (cap : ℕ) (written : List ℕ) (r : Option (Option ℕ × List ℕ))
    : Type 0 where
  end : Option ℕ
  memory : List ℕ
  returns : r ≡ some (end, memory)
  room : length memory ≡ cap
  outcome :
      (end ≡ some (length (written ++ text)))
        × (take (length (written ++ text)) memory ≡ written ++ text)
        × (length (written ++ text) ≤ cap)
      ⊎ (end ≡ none) × (cap < length (written ++ text))

fill-Fills :
    (ds : List Decoded) (cap : ℕ) (written memory : List ℕ)
    → Holds cap written memory
    → length written ≤ cap
    → Fills (utf8 (map replace ds)) cap written (fill ds (length written) memory)
unfolding fill utf8
fill-Fills [] cap written memory h fits = record {
  end = some (length written);
  memory = memory;
  returns = refl;
  room = h.room;
  outcome = inl (rw append-nil (refl, h.front, fits));
}
fill-Fills (d ∷ ds) cap written memory h fits =
    let encoded = encode_utf8 (replace d) in
    let size = length-append written encoded in
    let whole = append_assoc written encoded (utf8 (map replace ds)) in
    elim (Bool-cases (ltb (length memory) (length written + length encoded))) [
      | inl full ↦ record {
        end = none;
        memory = memory;
        returns = rw full;
        room = h.room;
        outcome = inr (
          refl,
          omega (
            arith,
            ltb→lt _ _ full,
            h.room,
            ap length whole,
            length-append (written ++ encoded) (utf8 (map replace ds)),
          ),
        );
      }
      | inr open_space ↦
          let fit : length written + length encoded ≤ cap = ground (arith, h.room) in
          let copy = copy_at-Pushed encoded written memory h fit in
          let rest = fill-Fills ds cap (written ++ encoded) copy.out copy.holds (omega arith) in
          record {
            end = rest.end;
            memory = rest.memory;
            returns = rw (open_space, copy.returns, ← size) rest.returns;
            room = rest.room;
            outcome = rw (← whole) rest.outcome;
          }
    ]

-- It borrows just when the buffer has room for the text.
pub record Fits (text buffer : List ℕ) (r : Option (Cow × List ℕ)) : Type 0 where
  pub shows : Shows text buffer r
  pub borrows : length text ≤ length buffer → shows.out.0 ≡ borrowed (length text)
  pub spills : length buffer < length text → shows.out.0 ≡ owned text

wtf16_to_cow_scalar-Fits :
    (units buffer : List ℕ) → Fits (utf8 (lossy units)) buffer (wtf16_to_cow_scalar units buffer)
unfolding wtf16_to_cow_scalar lossy borrow-Shows own-Shows
wtf16_to_cow_scalar-Fits units buffer =
    let text = utf8 (map replace (decode_utf16 units)) in
    let f =
      fill-Fills (decode_utf16 units) (length buffer) [] buffer
        (record { room = refl; front = refl }) (omega arith) in
    elim f.outcome [
      | inl (done, front, room) ↦
          let b =
            borrow-Shows text buffer f.memory (length text) refl front f.room (rw f.room room) in
          record {
            shows = record {
              out = b.out;
              returns = rw (f.returns, done) b.returns;
              reads = b.reads;
              size = b.size;
            };
            borrows = λ fit. refl;
            spills = λ over. absurd (omega arith);
          }
      | inr (broke, over) ↦ record {
        shows = record {
          out = (owned text, f.memory);
          returns = rw (f.returns, broke);
          reads = (own-Shows text buffer).reads;
          size = f.room;
        };
        borrows = λ fit. absurd (omega arith);
        spills = λ _. refl;
      }
    ]

module _ (host : Host) (sound : IsSound host.simdutf) where
  wtf16_to_cow_simd-Fits :
      (s : Simdutf) (units buffer : List ℕ)
      → IsDocumented s
      → well_formed units ≡ true
      → Fits (utf8 (lossy units)) buffer (wtf16_to_cow_simd host s units buffer)
  unfolding wtf16_to_cow_simd borrow-Shows own-Shows
  wtf16_to_cow_simd-Fits s units buffer doc ok =
      let text = utf8 (lossy units) in
      let exact = doc.length_utf16 units ok in
      let n = s.utf8_length_from_utf16le units in
      elim (Bool-cases (leb n (length buffer))) [
        | inl fits ↦
            let room = leb→le _ _ fits in
            let f =
              simd_write-Filled n text buffer (s.convert_utf16le_to_utf8 units) exact room
                (doc.converts_utf16 units _ ok (omega (arith, length-take n buffer room))) in
            let t = f.gives.text_of in
            let b =
              borrow-Shows text buffer f.gives.out.memory f.gives.out.len t.count t.front f.size
                t.within in
            record {
              shows = record {
                out = b.out;
                returns = rw (fits, f.gives.returns) b.returns;
                reads = b.reads;
                size = b.size;
              };
              borrows = λ fit. ap borrowed t.count;
              spills = λ over. absurd (omega arith);
            }
        | inr big ↦
            let over = leb→gt _ _ big in
            let o = own-Shows text buffer in
            record {
              shows = record {
                out = o.out;
                returns = rw (big, wtf16_to_string-utf8 host units sound);
                reads = o.reads;
                size = o.size;
              };
              borrows = λ fit. absurd (omega arith);
              spills = λ _. refl;
            }
      ]

  -- With the simdutf library as documented or without it, `wtf16_to_cow_str` of any units returns the
  -- UTF-8 encoding of their lossy characters: borrowed from the buffer when it fits there, owned when
  -- it does not.
  pub wtf16_to_cow_str-Fits :
      (units buffer : List ℕ)
      → Fits (utf8 (lossy units)) buffer (wtf16_to_cow_str host units buffer)
  unfolding wtf16_to_cow_str
  wtf16_to_cow_str-Fits units buffer = library host.simdutf sound
    where
      library :
          (o : Option Simdutf)
          → IsSound o
          → Fits (utf8 (lossy units)) buffer (elim o as (λ _. Option (Cow × List ℕ)) [
            | none ↦ wtf16_to_cow_scalar units buffer
            | some s ↦
                if takes_simd s units
                then wtf16_to_cow_simd host s units buffer
                else wtf16_to_cow_scalar units buffer
          ])
      library none h = wtf16_to_cow_scalar-Fits units buffer
      library (some s) doc = elim (Bool-cases (takes_simd s units)) [
        | inl e ↦ rw e (wtf16_to_cow_simd-Fits s units buffer doc (takes_simd-valid s units doc e))
        | inr e ↦ rw e (wtf16_to_cow_scalar-Fits units buffer)
      ]

  latin1_spills :
      (bytes buffer : List ℕ)
      → AllBytes bytes
      → is_ascii bytes ≡ false
      → Shows
          (utf8 bytes)
          buffer
          (latin1_to_string host bytes >>= λ text. some (owned text, buffer))
  latin1_spills bytes buffer byte wide =
      rw (latin1_to_string-utf8 host bytes sound byte wide) (own-Shows (utf8 bytes) buffer)

  pub latin1_to_cow_str-Shows :
      (bytes buffer : List ℕ)
      → AllBytes bytes
      → is_ascii bytes ≡ false
      → Shows (utf8 bytes) buffer (latin1_to_cow_str host bytes buffer)
  unfolding latin1_to_cow_str latin1_to_cow_simd latin1_to_cow_scalar
  latin1_to_cow_str-Shows bytes buffer byte wide = library host.simdutf sound
    where
      library :
          (o : Option Simdutf)
          → IsSound o
          → Shows (utf8 bytes) buffer (elim o as (λ _. Option (Cow × List ℕ)) [
            | none ↦ latin1_to_cow_scalar host bytes buffer
            | some s ↦ latin1_to_cow_simd host s bytes buffer
          ])
      library none h = elim (Bool-cases (leb (length bytes * 2) (length buffer))) [
        | inl fits ↦
            let (out, returns, front, size) =
              latin1_to_utf8_lem bytes [] buffer byte (omega (arith, leb→le _ _ fits)) in
            let b =
              borrow-Shows (utf8 bytes) buffer out (length (utf8 bytes)) refl front size
                (omega (arith, leb→le _ _ fits, utf8-length_bytes bytes byte)) in
            record {
              out = b.out;
              returns = rw (fits, rw append-nil at returns) b.returns;
              reads = b.reads;
              size = b.size;
            }
        | inr big ↦ rw big (latin1_spills bytes buffer byte wide)
      ]
      library (some s) doc =
          let exact = doc.length_latin1 bytes byte in
          let n = s.utf8_length_from_latin1 bytes in
          elim (Bool-cases (leb n (length buffer))) [
            | inl fits ↦
                let room = leb→le _ _ fits in
                let f =
                  simd_write-Filled n (utf8 bytes) buffer (s.convert_latin1_to_utf8 bytes) exact
                    room
                    (doc.converts_latin1 bytes _ byte (omega (arith, length-take n buffer room))) in
                let t = f.gives.text_of in
                let b =
                  borrow-Shows (utf8 bytes) buffer f.gives.out.memory f.gives.out.len t.count
                    t.front f.size t.within in
                record {
                  out = b.out;
                  returns = rw (fits, f.gives.returns) b.returns;
                  reads = b.reads;
                  size = b.size;
                }
            | inr big ↦ rw big (latin1_spills bytes buffer byte wide)
          ]
