-- ===== src/Strings/Latin1/Words.antt =====
-- The eight-byte words of the chunk loop.
use rusty_v.Base.{
  ℕ, zero, suc, ◌+◌, ◌*◌, ◌/◌, ◌<◌, ◌≡◌, refl, ◌∙◌, bit_and, bit_and_even, bit_and_odd, List, [],
  ◌∷◌, ◌++◌, some, drop, drop-cons, length, All, arith, ap,
}
use rusty_v.Strings.Utf8.Wellformed.{AllBytes}
use rusty_v.Strings.Latin1.{read_le}

abbrev pub IsAscii : ℕ → Type 0
IsAscii b = b < 128

-- The word that the bytes stand for.
unfoldable pub word : List ℕ → ℕ
word [] = 0
word (b ∷ bs) = b + 256 * word bs

-- The top bit of each of `n` bytes.
unfoldable pub mask : ℕ → ℕ
mask zero = 0
mask (suc n) = 128 + 256 * mask n

pub read_le-drop :
    (bs later inbuf : List ℕ) (i : ℕ)
    → drop i inbuf ≡ bs ++ later
    → (read_le (length bs) inbuf i ≡ some (word bs)) × (drop (i + length bs) inbuf ≡ later)
unfolding read_le word
read_le-drop [] later inbuf i e = (refl, ground arith)
read_le-drop (b ∷ bs) later inbuf i e =
    let (here, after) = drop-cons inbuf i b (bs ++ later) e in
    let (rest, past) = read_le-drop bs later inbuf (i + 1) after in
    let shift : i + suc (length bs) ≡ i + 1 + length bs = omega arith in
    (rw (here, rest), ap (λ n. drop n inbuf) shift ∙ past)

bit_and_shift2 : (a k : ℕ) → bit_and a (4 * k) ≡ 4 * bit_and (a / 4) k
bit_and_shift2 a k = ground (arith, bit_and_even a (2 * k), bit_and_even (a / 2) k)

bit_and_shift4 : (a k : ℕ) → bit_and a (16 * k) ≡ 16 * bit_and (a / 16) k
bit_and_shift4 a k = ground (arith, bit_and_shift2 a (4 * k), bit_and_shift2 (a / 4) k)

bit_and_shift7 : (a k : ℕ) → bit_and a (128 * k) ≡ 128 * bit_and (a / 128) k
bit_and_shift7 a k =
    ground
      (arith, bit_and_shift4 a (8 * k), bit_and_shift2 (a / 16) (2 * k), bit_and_even (a / 64) k)

mask_step :
    (b v m : ℕ)
    → b < 256
    → bit_and (b + 256 * v) (128 + 256 * m) ≡ 256 * bit_and v m + b / 128 * 128
mask_step b v m h =
    ground (arith, bit_and_shift7 (b + 256 * v) (2 * m + 1), bit_and_odd ((b + 256 * v) / 128) m)

pub word-mask :
    (bs : List ℕ) → AllBytes bs → bit_and (word bs) (mask (length bs)) ≡ 0 → All IsAscii bs
unfolding word mask
word-mask [] h e = tt
word-mask (b ∷ bs) h e = (
  omega (arith, mask_step b (word bs) (mask (length bs)) h.0),
  word-mask bs h.1 (omega (arith, mask_step b (word bs) (mask (length bs)) h.0)),
)

-- The test of the chunk loop.
pub word-mask_zero :
    (bs : List ℕ)
    → AllBytes bs
    → length bs ≡ 8
    → bit_and (word bs) 0x8080_8080_8080_8080 ≡ 0
    → All IsAscii bs
unfolding mask
word-mask_zero bs h eight e = word-mask bs h (rw eight e)
