-- ===== src/Strings/Latin1/Whole.antt =====
-- The loop over chunks, and `latin1_to_utf8` as a whole.
use rusty_v.Base.{
  ℕ, zero, suc, ◌+◌, ◌*◌, ◌≤◌, ◌<◌, ◌≡◌, refl, ◌∙◌, ap, sym, List, [], ◌++◌, Option, some, inl, inr,
  take, drop, length, length-append, append-nil, append_assoc, arith, leb, Bool-cases, while-step,
  while-stop, leb→le, leb→gt, take-append-drop, length-take, All-take, All-drop, All-append_inv,
  length-drop,
}
use rusty_v.Strings.Utf8.{utf8}
use rusty_v.Strings.Utf8.Wellformed.{IsByte, AllBytes, utf8-append}
use rusty_v.Strings.Latin1.{Cursor, convert_bytes, convert_chunk, latin1_to_utf8}
use rusty_v.Base.{while}
use rusty_v.Strings.Latin1.Buffer.{utf8-length_bytes}
use rusty_v.Strings.Latin1.Encodes.{At, Reaches, convert_bytes-Reaches, convert_chunk-Reaches}

module _ (inbuf extra : List ℕ) (cap : ℕ) where
  -- What the loop over chunks leaves: fewer than eight bytes.
  record Chunked (input : ℕ) (rest written : List ℕ) (r : Option Cursor) : Type 0 where
    done : List ℕ
    later : List ℕ
    split : rest ≡ done ++ later
    few : length later < 8
    run : Reaches inbuf cap (input + length done) (later ++ extra) (written ++ utf8 done) r

  chunks-Chunked :
      (fuel n input : ℕ) (rest written : List ℕ) (s : Cursor)
      → n ≡ input + length rest
      → AllBytes rest
      → At inbuf cap input (rest ++ extra) written s
      → length written + 2 * length rest ≤ cap
      → length rest < fuel
      → Chunked input rest written
          (while (λ (t : Cursor). leb (t.input + 8) n) (convert_chunk inbuf) fuel s)
  unfolding utf8
  chunks-Chunked zero n input rest written s end byte a fits f = absurd (omega arith)
  chunks-Chunked (suc fuel) n input rest written s end byte a fits f =
      elim (Bool-cases (leb (s.input + 8) n)) [
        | inl go ↦
            let enough : 8 ≤ length rest = omega (arith, leb→le _ _ go, a.place) in
            let bs = take 8 rest in
            let later = drop 8 rest in
            let eight : length bs ≡ 8 = length-take 8 rest enough in
            let left = length-drop 8 rest enough in
            let halves = take-append-drop 8 rest in
            let one =
              convert_chunk-Reaches inbuf cap input bs (later ++ extra) written s
                (All-take IsByte 8 rest byte) eight (rw (← append_assoc, halves) a) (omega arith) in
            let grown = length-append written (utf8 bs) in
            let size = utf8-length_bytes bs (All-take IsByte 8 rest byte) in
            let more =
              chunks-Chunked fuel n (input + 8) later (written ++ utf8 bs) one.out (omega arith)
                (All-drop IsByte 8 rest byte) one.at (omega arith) (omega arith) in
            let done = bs ++ more.done in
            let past : input + length done ≡ input + 8 + length more.done =
              omega (arith, length-append bs more.done) in
            let all : written ++ utf8 done ≡ (written ++ utf8 bs) ++ utf8 more.done =
              ap (λ t. written ++ t) (utf8-append bs more.done) ∙ sym (append_assoc written _ _) in
            record {
              done = done;
              later = more.later;
              split = sym halves ∙ (ap (λ t. bs ++ t) more.split ∙ sym (append_assoc bs _ _));
              few = more.few;
              run = record {
                out = more.run.out;
                returns = while-step _ _ fuel s one.out go one.returns ∙ more.run.returns;
                at = rw (past, all) more.run.at;
              };
            }
        | inr stop ↦
            let here : input + 0 ≡ input = omega arith in
            record {
              done = [];
              later = rest;
              split = refl;
              few = omega (arith, leb→gt _ _ stop, a.place);
              run = record {
                out = s;
                returns = while-stop _ _ fuel s stop;
                at = record {
                  place = omega arith;
                  unread = ap (λ k. drop k inbuf) here ∙ a.unread;
                  count = rw append-nil a.count;
                  holds = rw append-nil a.holds;
                };
              };
            }
      ]

-- Given `input_length` readable bytes and room for twice as many, `latin1_to_utf8` returns: it
-- ends, no access is out of bounds, what it writes is the UTF-8 encoding of the input, the count is
-- the number of bytes written, and the buffer keeps its size.
pub latin1_to_utf8_lem :
    (bytes extra outbuf : List ℕ)
    → AllBytes bytes
    → 2 * length bytes ≤ length outbuf
    → (out : List ℕ) × (latin1_to_utf8 (length bytes) (bytes ++ extra) outbuf
        ≡ some (length (utf8 bytes), out))
      × (take (length (utf8 bytes)) out ≡ utf8 bytes)
      × (length out ≡ length outbuf)
unfolding latin1_to_utf8 convert_bytes
latin1_to_utf8_lem bytes extra outbuf byte room =
    let inbuf = bytes ++ extra in
    let cap = length outbuf in
    let begin : Cursor = record { input = 0; output = 0; outbuf = outbuf } in
    let a : At inbuf cap 0 (bytes ++ extra) [] begin = record {
      place = refl;
      unread = refl;
      count = refl;
      holds = record { room = refl; front = refl };
    } in
    let c =
      chunks-Chunked inbuf extra cap (length bytes + 1) (length bytes) 0 bytes [] begin
        (omega arith) byte a (omega arith) (omega arith) in
    let split = rw c.split at byte in
    let (done_byte, later_byte) = All-append_inv IsByte c.done c.later split in
    let len : length bytes ≡ length c.done + length c.later =
      ap length c.split ∙ length-append c.done c.later in
    let size = utf8-length_bytes c.done done_byte in
    let e =
      convert_bytes-Reaches inbuf cap (length bytes + 1) (0 + length c.done) c.later extra
        (utf8 c.done) c.run.out later_byte c.run.at (omega arith) (omega arith) in
    let end : length bytes ≡ 0 + length c.done + length c.later = omega arith in
    let text : utf8 bytes ≡ utf8 c.done ++ utf8 c.later =
      ap utf8 c.split ∙ utf8-append c.done c.later in
    let returns = rw (← end) at e.returns in
    (
      e.out.outbuf,
      rw (c.run.returns, returns)
          (ap (λ k. some (k, e.out.outbuf)) (e.at.count ∙ ap length (sym text))),
      rw (text) e.at.holds.front,
      e.at.holds.room,
    )
