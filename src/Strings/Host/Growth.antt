-- ===== src/Strings/Host/Growth.antt =====
-- A buffer holds what was pushed, and a conversion fills what it is given.
use rusty_v.Base.{
  ℕ, ◌+◌, ◌≤◌, ◌≡◌, refl, List, [], ◌∷◌, ◌++◌, Option, some, inl, inr, take, length, length-append,
  append-nil, snoc-append, take-append, arith, leb, Bool-cases, leb→le,
}
use rusty_v.Strings.Latin1.Buffer.{Holds, Pushed, write_at-Pushed}
use rusty_v.Strings.Host.{Host, Buffer, contents, copy_at, reserve, push}

pub copy_at-Pushed :
    {cap : ℕ} (bs written memory : List ℕ)
    → Holds cap written memory
    → length written + length bs ≤ cap
    → Pushed cap (written ++ bs) (copy_at memory (length written) bs)
unfolding copy_at
copy_at-Pushed [] written memory h fits = record {
  out = memory;
  returns = refl;
  holds = rw append-nil h;
}
copy_at-Pushed (b ∷ bs) written memory h fits =
    let one = write_at-Pushed b h (omega arith) in
    let len : length (written ++ (b ∷ [])) ≡ length written + 1 = length-append written (b ∷ []) in
    let rest = copy_at-Pushed bs (written ++ (b ∷ [])) one.out one.holds (omega arith) in
    record {
      out = rest.out;
      returns = rw (one.returns, ← len) rest.returns;
      holds = rw (← snoc-append written bs b) rest.holds;
    }

-- A buffer whose contents are `text`.
pub record IsText (text : List ℕ) (b : Buffer) : Type 0 where
  pub count : b.len ≡ length text
  pub front : take (length text) b.memory ≡ text
  pub within : length text ≤ length b.memory

pub contents-IsText : {text : List ℕ} {b : Buffer} → IsText text b → contents b ≡ text
unfolding contents
contents-IsText t = rw t.count t.front

pub record Gives (text : List ℕ) (r : Option Buffer) : Type 0 where
  pub out : Buffer
  pub returns : r ≡ some out
  pub text_of : IsText text out

module _ (host : Host) where
  -- After `reserve` the text is as it was, with room for `n` more bytes.
  pub reserve-IsText :
      {text : List ℕ} (b : Buffer) (n : ℕ)
      → IsText text b
      → IsText text (reserve host b n) × (length text + n ≤ length (reserve host b n).memory)
  unfolding reserve
  reserve-IsText {text} b n t = elim (Bool-cases (leb (b.len + n) (length b.memory))) [
    | inl there ↦ rw there (t, omega (arith, leb→le _ _ there, t.count))
    | inr grown ↦
        let front : take b.len b.memory ≡ text = rw t.count t.front in
        let size = length-append text (host.alloc n) in
        rw (grown, front)
          (
            record {
              count = t.count;
              front = take-append text (host.alloc n);
              within = omega arith;
            },
            omega (arith, host.alloc_room n),
          )
  ]

  pub push-Gives :
      {text : List ℕ} (b : Buffer) (bytes : List ℕ)
      → IsText text b
      → Gives (text ++ bytes) (push host b bytes)
  unfolding push
  push-Gives {text} b bytes t =
      let (kept, room) = reserve-IsText b (length bytes) t in
      let size = length-append text bytes in
      let copy =
        copy_at-Pushed bytes text (reserve host b (length bytes)).memory
          (record { room = refl; front = kept.front }) room in
      record {
        out = record {
          len = (reserve host b (length bytes)).len + length bytes;
          memory = copy.out;
        };
        returns = rw (kept.count, copy.returns);
        text_of = record {
          count = omega (arith, kept.count);
          front = copy.holds.front;
          within = omega (arith, copy.holds.room);
        };
      }
