-- ===== src/Strings/Write/Tests.antt =====
-- Instances of the theorems about making and writing strings, with functions that do as V8 documents.
use rusty_v.Base.{
  ℕ, ◌+◌, ◌≡◌, inl, inr, refl, Bool, true, false, if◌then◌else◌, leb, le→leb, gt→leb, List, [], ◌∷◌,
  length, some, none, ◌>>=◌, arith,
}
use rusty_v.Strings.Write.{
  MakeString, WriteString, new_from_two_byte, new_from_one_byte, write_v2, write_one_byte_v2,
}
use rusty_v.Strings.Write.Clamped.{
  IsMake, IsWrite, terminator, copied, Clamps, low_byte, writes-Clamps, write-new_from,
}

abbrev documented : (ℕ → ℕ) → WriteString
documented narrow s offset count buffer terminate =
    if leb (offset + count) (length s)
    then (if leb (count + length (terminator terminate)) (length buffer)
        then some (copied narrow s offset count buffer terminate)
        else none)
    else none

if_same {ℓ} : {A : Type ℓ} (b : Bool) (x : A) → (if b then x else x) ≡ x
if_same true x = refl
if_same false x = refl

documented-IsWrite : (narrow : ℕ → ℕ) → IsWrite narrow (documented narrow)
documented-IsWrite narrow = record {
  copies = λ s offset count buffer terminate p q. rw (le→leb _ _ p, le→leb _ _ q);
  strays = λ s offset count buffer terminate h. elim h [
    | inl p ↦ rw (gt→leb _ _ p)
    | inr q ↦
        rw (gt→leb (count + length (terminator terminate)) (length buffer) q)
          (if_same (leb (offset + count) (length s)) none)
  ];
}

abbrev made_below_ten : MakeString
made_below_ten buffer = if leb (length buffer) 10 then some buffer else none

made_below_ten-IsMake : IsMake 10 (λ us. us) made_below_ten
made_below_ten-IsMake = record { below = omega arith; makes = λ buffer. refl }

abbrev text : List ℕ
text = 72 ∷ 0x20ac ∷ 105 ∷ []

abbrev room : List ℕ
room = 1 ∷ 2 ∷ 3 ∷ 4 ∷ 5 ∷ []

terminated :
    write_v2 (documented (λ unit. unit)) text 0 room true ≡ some (72 ∷ 0x20ac ∷ 105 ∷ 0 ∷ 5 ∷ [])
unfolding write_v2
terminated = refl

past_the_end : write_v2 (documented (λ unit. unit)) text 1 room false ≡ none
unfolding write_v2
past_the_end = refl

writes-Clamps_example :
    Clamps (λ unit. unit) text 1 room false (write_v2 (documented (λ unit. unit)) text 1 room false)
    × Clamps low_byte text 1 room false (write_one_byte_v2 (documented low_byte) text 1 room false)
writes-Clamps_example =
    writes-Clamps (documented (λ unit. unit)) (documented low_byte) text 1 room false
      (documented-IsWrite (λ unit. unit)) (documented-IsWrite low_byte) (omega arith)

write-new_from_example :
    ((do
      s ← new_from_two_byte made_below_ten text
      write_v2 (documented (λ unit. unit)) s 0 room false)
      ≡ some (72 ∷ 0x20ac ∷ 105 ∷ 4 ∷ 5 ∷ []))
    × ((do
      s ← new_from_one_byte made_below_ten (65 ∷ 255 ∷ [])
      write_one_byte_v2 (documented low_byte) s 0 room false)
        ≡ some (65 ∷ 255 ∷ 3 ∷ 4 ∷ 5 ∷ []))
write-new_from_example =
    write-new_from 10 made_below_ten made_below_ten (documented (λ unit. unit))
      (documented low_byte) text (65 ∷ 255 ∷ []) room made_below_ten-IsMake made_below_ten-IsMake
      (documented-IsWrite (λ unit. unit)) (documented-IsWrite low_byte) (omega arith) (omega arith)
      (omega arith)
