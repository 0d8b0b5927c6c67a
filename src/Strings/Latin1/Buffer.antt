-- ===== src/Strings/Latin1/Buffer.antt =====
-- What the output buffer holds while `latin1_to_utf8` writes it.
use rusty_v.Base.{
  ℕ, suc, ◌+◌, ◌*◌, ◌/◌, ◌%◌, ◌≤◌, ◌<◌, ◌≡◌, refl, ◌∙◌, ap, List, [], ◌∷◌, ◌++◌, Option, some,
  write_at, write_at_lem, take, length, length-append, snoc-append, append-nil, arith, ltb, bit_or,
  bit_and, holds_below, holds_below_lem, ◌==◌, ◌^◌, ◌&&◌, Bool, true, All, ◌||◌,
}
use rusty_v.Strings.Utf8.{encode_utf8, utf8}
use rusty_v.Strings.Utf8.Wellformed.{AllBytes}
use rusty_v.Strings.Latin1.{write_le}
use rusty_v.Strings.Latin1.Words.{word, IsAscii}

-- The buffer has its size, and begins with the bytes that were written.
pub record Holds (cap : ℕ) (written outbuf : List ℕ) : Type 0 where
  pub room : length outbuf ≡ cap
  pub front : take (length written) outbuf ≡ written

-- A write at the end of what was written.
pub record Pushed (cap : ℕ) (written : List ℕ) (r : Option (List ℕ)) : Type 0 where
  pub out : List ℕ
  pub returns : r ≡ some out
  pub holds : Holds cap written out

pub write_at-Pushed :
    {cap : ℕ} {written outbuf : List ℕ} (v : ℕ)
    → Holds cap written outbuf
    → length written < cap
    → Pushed cap (written ++ (v ∷ [])) (write_at outbuf (length written) v)
write_at-Pushed {cap} {written} {outbuf} v h fits =
    let (out, returns, same, below) = write_at_lem outbuf (length written) v (omega arith) in
    let len : length (written ++ (v ∷ [])) ≡ suc (length written) =
      omega (arith, length-append written (v ∷ [])) in
    record {
      out = out;
      returns = returns;
      holds = record {
        room = same ∙ h.room;
        front = ap (λ n. take n out) len ∙ below ∙ ap (λ t. t ++ (v ∷ [])) h.front;
      };
    }

pub write_le-Pushed :
    {cap : ℕ} (bs written outbuf : List ℕ)
    → AllBytes bs
    → Holds cap written outbuf
    → length written + length bs ≤ cap
    → Pushed cap (written ++ bs) (write_le (length bs) outbuf (length written) (word bs))
unfolding write_le word
write_le-Pushed [] written outbuf byte h fits = record {
  out = outbuf;
  returns = refl;
  holds = rw append-nil h;
}
write_le-Pushed {cap} (b ∷ bs) written outbuf byte h fits =
    let low : (b + 256 * word bs) % 256 ≡ b = omega arith in
    let high : (b + 256 * word bs) / 256 ≡ word bs = omega arith in
    let one = write_at-Pushed b h (omega arith) in
    let len : length (written ++ (b ∷ [])) ≡ length written + 1 = length-append written (b ∷ []) in
    let rest = write_le-Pushed bs (written ++ (b ∷ [])) one.out byte.1 one.holds (omega arith) in
    record {
      out = rest.out;
      returns = rw (low, high, one.returns, ← len) rest.returns;
      holds = rw (← snoc-append written bs b) rest.holds;
    }

-- The two bytes of a character from 0x80 to 0xff.
abbrev wide_agrees : ℕ → Bool
wide_agrees b =
    ltb b 128
    || (bit_or (b / 2 ^ 6) 0b1100_0000 == b / 64 + 0xc0)
      && (bit_or (bit_and b 0b0011_1111) 0b1000_0000 == b % 64 + 0x80)

wide_table : holds_below wide_agrees 256 ≡ true
unfolding holds_below
wide_table = refl

pub wide_bytes :
    (b : ℕ)
    → b < 256
    → 128 ≤ b
    → (bit_or (b / 2 ^ 6) 0b1100_0000 ≡ b / 64 + 0xc0)
      × (bit_or (bit_and b 0b0011_1111) 0b1000_0000 ≡ b % 64 + 0x80)
wide_bytes b h k = ground (arith, holds_below_lem wide_agrees 256 b h wide_table)

pub utf8-ascii : (bs : List ℕ) → All IsAscii bs → utf8 bs ≡ bs
unfolding utf8 encode_utf8
utf8-ascii [] h = refl
utf8-ascii (b ∷ bs) h = ground (arith, utf8-ascii bs h.1)

pub encode_utf8-length_byte :
    (b : ℕ) → b < 256 → (1 ≤ length (encode_utf8 b)) × (length (encode_utf8 b) ≤ 2)
unfolding encode_utf8
encode_utf8-length_byte b h = ground arith

pub utf8-length_bytes : (bs : List ℕ) → AllBytes bs → length (utf8 bs) ≤ 2 * length bs
unfolding utf8
utf8-length_bytes [] h = omega arith
utf8-length_bytes (b ∷ bs) h = omega (
  arith,
  length-append (encode_utf8 b) (utf8 bs),
  encode_utf8-length_byte b h.0,
  utf8-length_bytes bs h.1,
)
