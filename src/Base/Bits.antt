-- ===== src/Base/Bits.antt =====
-- Masks as halvings, and laws of bytes by a check of every value.
use Prim.Native.Nat.{
  ℕ, zero, suc, ◌+◌, ◌*◌, ◌/◌, ◌%◌, ◌≤◌, ◌<◌, min, bit_and, digits, bit_and-bitwise,
}
use mathlib.Core.Path.{◌≡◌, refl, ap}
use mathlib.Core.Bool.{Bool, true, ◌&&◌}
use native.Mathlib.Omega.{arith}
use native.Mathlib.Nat.{le_refl}

unfoldable pub holds_below : (ℕ → Bool) → ℕ → Bool
holds_below law zero = true
holds_below law (suc limit) = holds_below law limit && law limit

pub holds_below_lem :
    (law : ℕ → Bool) (limit value : ℕ)
    → value < limit
    → holds_below law limit ≡ true
    → law value ≡ true
unfolding holds_below
holds_below_lem law zero value below all_hold = absurd (omega arith)
holds_below_lem law (suc limit) value below all_hold =
    ground (arith, holds_below_lem law limit value)

-- `bit_and` by its digits, with `fuel` for their number.
abbrev and_digits : ℕ → ℕ → ℕ → ℕ
and_digits fuel word m = digits (λ _. 0) min fuel word m

and_digits_zero : (fuel m : ℕ) → and_digits fuel 0 m ≡ 0
and_digits_zero zero m = refl
and_digits_zero (suc fuel) m = refl

and_digits_enough :
    (small big word m : ℕ)
    → word ≤ small
    → small ≤ big
    → and_digits small word m ≡ and_digits big word m
and_digits_enough small zero zero m fits more = and_digits_zero small m
and_digits_enough small (suc big) zero m fits more = and_digits_zero small m
and_digits_enough zero big (suc word) m fits more = absurd (omega arith)
and_digits_enough (suc small) zero (suc word) m fits more = absurd (omega arith)
and_digits_enough (suc small) (suc big) (suc word) m fits more =
    let tail = and_digits_enough small big (suc word / 2) (m / 2) (omega arith) (omega arith) in
    ap (λ t. t * 2 + min (suc word % 2) (m % 2)) tail

bit_and_half :
    (word m : ℕ) → bit_and word m ≡ 2 * bit_and (word / 2) (m / 2) + min (word % 2) (m % 2)
bit_and_half zero m = simp bit_and-bitwise (omega arith)
bit_and_half (suc word) m =
    let tail : and_digits (suc word / 2) (suc word / 2) (m / 2)
        ≡ and_digits word (suc word / 2) (m / 2) =
      and_digits_enough (suc word / 2) word (suc word / 2) (m / 2) (le_refl (suc word / 2))
        (omega arith) in
    simp bit_and-bitwise (omega (arith, tail))

-- One bit of a mask.
pub bit_and_even : (word m : ℕ) → bit_and word (2 * m) ≡ 2 * bit_and (word / 2) m
bit_and_even word m =
    let half : bit_and word (2 * m)
        ≡ 2 * bit_and (word / 2) ((2 * m) / 2) + min (word % 2) ((2 * m) % 2) =
      bit_and_half word (2 * m) in
    let exact : (2 * m) / 2 ≡ m = omega arith in omega (arith, (rw exact at half))

pub bit_and_odd : (word m : ℕ) → bit_and word (2 * m + 1) ≡ 2 * bit_and (word / 2) m + word % 2
bit_and_odd word m =
    let half : bit_and word (2 * m + 1)
        ≡ 2 * bit_and (word / 2) ((2 * m + 1) / 2) + min (word % 2) ((2 * m + 1) % 2) =
      bit_and_half word (2 * m + 1) in
    let exact : (2 * m + 1) / 2 ≡ m = omega arith in omega (arith, (rw exact at half))
