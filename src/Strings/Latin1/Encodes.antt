-- ===== src/Strings/Latin1/Encodes.antt =====
-- `latin1_to_utf8` encodes its input, stays within its buffers, and ends.
use rusty_v.Base.{
  ℕ, zero, suc, ◌+◌, ◌*◌, ◌≤◌, ◌<◌, ◌≡◌, ◌∙◌, ap, List, [], ◌∷◌, ◌++◌, Option, some, inl, inr, drop,
  length, length-append, append-nil, append_assoc, snoc-append, true, ◌/◌, ◌%◌, arith, drop-cons,
  ltb, Bool-cases, while-step, while-stop, lt→ltb, ==→≡, ◌==◌, bit_and,
}
use rusty_v.Strings.Utf8.{encode_utf8, utf8}
use rusty_v.Strings.Utf8.Wellformed.{IsByte, AllBytes}
use rusty_v.Strings.Latin1.{Cursor, convert_byte, convert_bytes, convert_chunk}
use rusty_v.Strings.Latin1.Words.{word, word-mask_zero, read_le-drop}
use rusty_v.Strings.Latin1.Buffer.{
  Holds, write_at-Pushed, write_le-Pushed, wide_bytes, utf8-ascii, encode_utf8-length_byte,
}

module _ (inbuf : List ℕ) (cap : ℕ) where
  -- The cursor has read up to `input`, with `rest` to come, and has written `written`.
  pub record At (input : ℕ) (rest written : List ℕ) (s : Cursor) : Type 0 where
    pub place : s.input ≡ input
    pub unread : drop input inbuf ≡ rest
    pub count : s.output ≡ length written
    pub holds : Holds cap written s.outbuf

  pub record Reaches (input : ℕ) (rest written : List ℕ) (r : Option Cursor) : Type 0 where
    pub out : Cursor
    pub returns : r ≡ some out
    pub at : At input rest written out

  convert_byte-Reaches :
      (input b : ℕ) (rest written : List ℕ) (s : Cursor)
      → IsByte b
      → At input (b ∷ rest) written s
      → length written + 2 ≤ cap
      → Reaches (input + 1) rest (written ++ encode_utf8 b) (convert_byte inbuf s)
  unfolding convert_byte encode_utf8
  convert_byte-Reaches input b rest written s byte a fits =
      let (read, after) = drop-cons inbuf input b rest a.unread in
      elim (Bool-cases (ltb b 128)) [
        | inl narrow ↦
            let one = write_at-Pushed b a.holds (omega arith) in
            record {
              out = record { input = s.input + 1; output = s.output + 1; outbuf = one.out };
              returns = rw (a.place, a.count, read, narrow, one.returns);
              at = record {
                place = omega arith;
                unread = after;
                count = rw narrow (omega (arith, length-append written (b ∷ [])));
                holds = rw narrow one.holds;
              };
            }
        | inr wide ↦
            let one = write_at-Pushed (b / 64 + 0xc0) a.holds (omega arith) in
            let len : length (written ++ ((b / 64 + 0xc0) ∷ [])) ≡ length written + 1 =
              length-append written ((b / 64 + 0xc0) ∷ []) in
            let two = write_at-Pushed (b % 64 + 0x80) one.holds (omega arith) in
            let bytes = wide_bytes b byte (ground arith) in
            let small = lt→ltb b 2048 (omega arith) in
            record {
              out = record { input = s.input + 1; output = s.output + 2; outbuf = two.out };
              returns =
                  rw (
                    a.place,
                    a.count,
                    read,
                    wide,
                    bytes.0,
                    one.returns,
                    bytes.1,
                    ← len,
                    two.returns,
                  );
              at = record {
                place = omega arith;
                unread = after;
                count =
                    rw (wide, small)
                      (omega
                        (arith, length-append written ((b / 64 + 0xc0) ∷ (b % 64 + 0x80) ∷ [])));
                holds = rw (wide, small) (rw snoc-append at two.holds);
              };
            }
      ]

  pub convert_bytes-Reaches :
      (fuel input : ℕ) (first later written : List ℕ) (s : Cursor)
      → AllBytes first
      → At input (first ++ later) written s
      → length written + 2 * length first ≤ cap
      → length first < fuel
      → Reaches
          (input + length first)
          later
          (written ++ utf8 first)
          (convert_bytes inbuf (input + length first) fuel s)
  unfolding convert_bytes utf8
  convert_bytes-Reaches zero input first later written s byte a fits f = absurd (omega arith)
  convert_bytes-Reaches (suc fuel) input [] later written s byte a fits f =
      let here : input + 0 ≡ input = omega arith in
      record {
        out = s;
        returns = while-stop _ _ fuel s (ground arith);
        at = record {
          place = omega arith;
          unread = ap (λ n. drop n inbuf) here ∙ a.unread;
          count = rw append-nil a.count;
          holds = rw append-nil a.holds;
        };
      }
  convert_bytes-Reaches (suc fuel) input (b ∷ bs) later written s byte a fits f =
      let go : ltb s.input (input + suc (length bs)) ≡ true = lt→ltb _ _ (omega arith) in
      let one = convert_byte-Reaches input b (bs ++ later) written s byte.0 a (omega arith) in
      let size = length-append written (encode_utf8 b) in
      let rest =
        convert_bytes-Reaches fuel (input + 1) bs later (written ++ encode_utf8 b) one.out byte.1
          one.at (omega (arith, size, encode_utf8-length_byte b byte.0)) (omega arith) in
      let shift : input + suc (length bs) ≡ input + 1 + length bs = omega arith in
      record {
        out = rest.out;
        returns = while-step _ _ fuel s one.out go one.returns ∙ rw shift rest.returns;
        at = rw (shift, ← append_assoc) rest.at;
      }

  -- One chunk, whichever way it is taken.
  pub convert_chunk-Reaches :
      (input : ℕ) (bs later written : List ℕ) (s : Cursor)
      → AllBytes bs
      → length bs ≡ 8
      → At input (bs ++ later) written s
      → length written + 16 ≤ cap
      → Reaches (input + 8) later (written ++ utf8 bs) (convert_chunk inbuf s)
  unfolding convert_chunk
  convert_chunk-Reaches input bs later written s byte eight a fits =
      let (read, past) = read_le-drop bs later inbuf input a.unread in
      elim (Bool-cases (bit_and (word bs) 0x8080_8080_8080_8080 == 0)) [
        | inl ascii ↦
            let two = write_le-Pushed bs written s.outbuf byte a.holds (omega arith) in
            let same = utf8-ascii bs (
              word-mask_zero bs byte eight
                (==→≡ (bit_and (word bs) 0x8080_8080_8080_8080) 0 ascii)) in
            record {
              out = record { input = s.input + 8; output = s.output + 8; outbuf = two.out };
              returns = rw (a.place, a.count, (rw eight at read), ascii, (rw eight at two.returns));
              at = record {
                place = omega arith;
                unread = rw eight at past;
                count = rw same (omega (arith, length-append written bs));
                holds = rw same two.holds;
              };
            }
        | inr other ↦
            let each =
              convert_bytes-Reaches 9 input bs later written s byte a (omega arith) (omega arith) in
            record {
              out = each.out;
              returns = ground (arith, read, each.returns);
              at = rw eight at each.at;
            }
      ]

  -- What the loop over chunks leaves: fewer than eight bytes.
  pub record Chunked (input : ℕ) (rest extra written : List ℕ) (r : Option Cursor) : Type 0 where
    pub done : List ℕ
    pub later : List ℕ
    pub split : rest ≡ done ++ later
    pub few : length later < 8
    pub run : Reaches (input + length done) (later ++ extra) (written ++ utf8 done) r
