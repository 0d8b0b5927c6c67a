-- ===== src/Build/Inflate/Stream.antt =====
-- What files and `inflate` are documented to do, and that the loop writes the whole decompressed stream.
use native.Mathlib.Decide.{dec_lt}
use rusty_v.Base.{
  ℕ, zero, suc, ◌+◌, ◌-◌, ◌<◌, ◌≤◌, ◌≡◌, ◌⊎◌, inl, inr, refl, sym, ap, ◌∙◌, List, [], ◌∷◌, ◌++◌,
  length, length-append, drop, length-drop, append_assoc, some, arith,
}
use rusty_v.Build.Inflate.{
  Files, mz_ok, stream_end, StreamResult, Miniz, buffer_size, finished, Loop, again, ended,
  after_inflate, round, rounds, decompress_to_writer,
}

-- Files that can be read and written: a read gives some bytes of those that are left, as many as there is
-- room for at most, and none only at the end of the file or for an empty buffer. A write appends.
pub record IsFiles (files : Files) : Type 0 where
  pub rest : files.Input → List ℕ
  pub contents : files.Output → List ℕ
  pub reads :
      (i : files.Input) (room : ℕ)
      → (bytes : List ℕ) × (i' : files.Input) × (files.read i room ≡ some (bytes, i'))
        × (rest i ≡ bytes ++ rest i')
        × (length bytes ≤ room)
        × ((0 < length bytes) ⊎ (rest i ≡ []) ⊎ (room ≡ 0))
  pub writes :
      (o : files.Output) (bytes : List ℕ)
      → (o' : files.Output) × (files.write_all o bytes ≡ some o')
        × (contents o' ≡ contents o ++ bytes)

-- `Inflates s body text`: in state `s` the deflated bytes `body` end a stream whose remaining text is `text`.
abbrev pub Inflated : Miniz → Type 1
Inflated miniz = miniz.InflateState → List ℕ → List ℕ → Type 0

-- A call that ends the stream, one that goes on, or one that has nothing to work on.
abbrev pub Proceeds :
    (miniz : Miniz)
    → Inflated miniz
    → List ℕ
    → List ℕ
    → List ℕ
    → StreamResult miniz.InflateState
    → Type 0
Proceeds miniz Inflates given later text r =
    ((r.status ≡ stream_end) × (r.written ≡ text))
    ⊎ ((r.status ≡ mz_ok)
        × (r.bytes_consumed ≤ length given)
        × (0 < r.bytes_consumed + length r.written)
        × (body : List ℕ) × (trailer : List ℕ) × (text' : List ℕ) × (drop r.bytes_consumed given
              ++ later
            ≡ body ++ trailer)
        × (text ≡ r.written ++ text')
        × Inflates r.state body text')

-- Given the first bytes of a deflated body and of what follows it, `inflate` gives the first bytes of
-- the text, and gets on; it has nothing to work on only where none are given and the body is not over.
pub record IsInflate (miniz : Miniz) (Inflates : Inflated miniz) : Type 0 where
  pub proceeds :
      (s : miniz.InflateState) (body trailer text given later : List ℕ)
      → Inflates s body text
      → given ++ later ≡ body ++ trailer
      → (0 < length given) ⊎ (body ≡ [])
      → Proceeds miniz Inflates given later text (miniz.inflate s given buffer_size)

empty_of_length : (xs : List ℕ) → length xs ≡ 0 → xs ≡ []
empty_of_length [] h = refl
empty_of_length (x ∷ xs) h = absurd (omega arith)

-- Bytes are at hand unless the body is over.
some_given :
    (pending bytes after rest body trailer : List ℕ)
    → rest ≡ bytes ++ after
    → (pending ++ bytes) ++ after ≡ body ++ trailer
    → (0 < length bytes) ⊎ (rest ≡ []) ⊎ (buffer_size - length pending ≡ 0)
    → (0 < length (pending ++ bytes)) ⊎ (body ≡ [])
some_given pending bytes after rest body trailer parts split (inl p) =
    inl (omega (arith, length-append pending bytes))
some_given pending bytes after rest body trailer parts split (inr (inr full)) =
    inl (omega (arith, length-append pending bytes))
some_given pending bytes after rest body trailer parts split (inr (inl end)) =
    let none_left : length bytes + length after ≡ 0 =
      omega (arith, length-append bytes after, ap length (sym parts ∙ end)) in
    elim (dec_lt 0 (length (pending ++ bytes))) [
      | yes p ↦ inl p
      | no p ↦ inr (
          empty_of_length body (
            omega (
              arith,
              ap length split,
              length-append (pending ++ bytes) after,
              length-append body trailer,
            )))
    ]

module _ (files : Files) (miniz : Miniz) (l : Loop files miniz) where
  abbrev room : ℕ
  room = buffer_size - length l.pending

  abbrev inflated : List ℕ → StreamResult miniz.InflateState
  inflated bytes = miniz.inflate l.inflate_state (l.pending ++ bytes) buffer_size

  abbrev next : List ℕ → files.Input → files.Output → Loop files miniz
  next bytes input output = record {
    inflate_state = (inflated bytes).state;
    pending = drop (inflated bytes).bytes_consumed (l.pending ++ bytes);
    input = input;
    output = output;
  }

  round-ended :
      (bytes : List ℕ) (input : files.Input) (output : files.Output)
      → files.read l.input room ≡ some (bytes, input)
      → (inflated bytes).status ≡ stream_end
      → files.write_all l.output (inflated bytes).written ≡ some output
      → round files miniz l ≡ ended output
  unfolding round
  round-ended bytes input output e s w = rw (e, round) (rw (s, after_inflate, w))

  round-again :
      (bytes : List ℕ) (input : files.Input) (output : files.Output)
      → files.read l.input room ≡ some (bytes, input)
      → (inflated bytes).status ≡ mz_ok
      → files.write_all l.output (inflated bytes).written ≡ some output
      → round files miniz l ≡ again (next bytes input output)
  unfolding round
  round-again bytes input output e s w = rw (e, round) (rw (s, after_inflate, w))

module _ (files : Files) (miniz : Miniz) (Inflates : Inflated miniz) (f : IsFiles files)
    (m : IsInflate miniz Inflates) where
  -- What the loop has still to read and to write.
  record Left (l : Loop files miniz) (text : List ℕ) : Type 0 where
    body : List ℕ
    trailer : List ℕ
    inflates : Inflates l.inflate_state body text
    unread : l.pending ++ f.rest l.input ≡ body ++ trailer
    fits : length l.pending ≤ buffer_size

  left : Loop files miniz → List ℕ → ℕ
  left l text = length l.pending + length (f.rest l.input) + length text

  rounds_lem :
      (fuel : ℕ) (l : Loop files miniz) (text : List ℕ)
      → Left l text
      → left l text < fuel
      → (o : files.Output) × (rounds files miniz fuel l ≡ finished o)
        × (f.contents o ≡ f.contents l.output ++ text)
  unfolding rounds left
  rounds_lem zero l text h enough = absurd (omega arith)
  rounds_lem (suc fuel) l text h enough =
      let (bytes, input, e, parts, short, some_left) = f.reads l.input (room files miniz l) in
      let split : (l.pending ++ bytes) ++ f.rest input ≡ h.body ++ h.trailer =
        append_assoc l.pending bytes (f.rest input)
        ∙ ap (λ t. l.pending ++ t) (sym parts)
        ∙ h.unread in
      let r = inflated files miniz l bytes in
      let (output, w, appended) = f.writes l.output r.written in
      elim (m.proceeds l.inflate_state h.body h.trailer text (l.pending ++ bytes) (f.rest input)
        h.inflates split
        (some_given l.pending bytes (f.rest input) (f.rest l.input) h.body h.trailer parts split
          some_left)) [
            | inl (stops, all_text) ↦ (
              output,
              rw (rounds, round-ended files miniz l bytes input output e stops w),
              appended ∙ ap (λ t. f.contents l.output ++ t) all_text,
            )
            | inr (goes, within, progress, body, trailer, text', split', cut, inflates) ↦
                let l' = next files miniz l bytes input output in
                let consumed : length (drop r.bytes_consumed (l.pending ++ bytes))
                      + r.bytes_consumed
                    ≡ length (l.pending ++ bytes) =
                  length-drop r.bytes_consumed (l.pending ++ bytes) within in
                let (o, run, shown) =
                  rounds_lem fuel l' text'
                    (record {
                      body = body;
                      trailer = trailer;
                      inflates = inflates;
                      unread = split';
                      fits = omega (arith, length-append l.pending bytes);
                    })
                    (omega (
                      arith,
                      length-append l.pending bytes,
                      length-append bytes (f.rest input),
                      ap length parts,
                      ap length cut,
                      length-append r.written text',
                    )) in
                (
                  o,
                  rw (rounds, round-again files miniz l bytes input output e goes w) run,
                  shown
                      ∙ ap (λ t. t ++ text') appended
                      ∙ append_assoc (f.contents l.output) r.written text'
                      ∙ ap (λ t. f.contents l.output ++ t) (sym cut),
                )
          ]

  -- Where files behave and inflate does as documented, reads may be as short as they will: on a file with a
  -- gzip header that is followed by a whole deflated stream and anything after it, decompress_to_writer
  -- ends, within as many rounds as the file and the text have bytes and one more, without an error, and appends
  -- the text of the stream and nothing else to what it writes to.
  pub decompress_to_writer_lem :
      (fuel : ℕ) (input after_header : files.Input) (output : files.Output)
      (body trailer text : List ℕ)
      → files.read_gz_header input ≡ some after_header
      → f.rest after_header ≡ body ++ trailer
      → Inflates miniz.initial body text
      → length (f.rest after_header) + length text < fuel
      → (o : files.Output) × (decompress_to_writer files miniz fuel input output ≡ finished o)
        × (f.contents o ≡ f.contents output ++ text)
  unfolding decompress_to_writer left
  decompress_to_writer_lem fuel input after_header output body trailer text header parts inflates
        enough =
      let l : Loop files miniz = record {
        inflate_state = miniz.initial;
        pending = [];
        input = after_header;
        output = output;
      } in
      let (o, run, shown) =
        rounds_lem fuel l text
          (record {
            body = body;
            trailer = trailer;
            inflates = inflates;
            unread = parts;
            fits = omega arith;
          })
          (omega arith) in
      (o, rw (header, decompress_to_writer) run, shown)
