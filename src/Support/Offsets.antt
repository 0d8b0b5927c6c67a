-- ===== src/Support/Offsets.antt =====
-- `FieldOffset`, `Maybe` and `MaybeBool` (src/support.rs).
--
-- A pointer is its address. `none` is a panic.
use rusty_v.Base.{
  ℕ, ◌+◌, ◌-◌, ◌≤◌, ◌<◌, ◌≡◌, ◌↔◌, refl, Bool, true, false, not, leb, Option, none, some, ◌>>=◌,
  ◌>>◌, assert, arith, ◌==◌,
}

-- `MaybeBool`, with the numbers that C++ gives its values.
pub data MaybeBool : Type 0 where
  just_false just_true nothing : MaybeBool

unfoldable pub to_option : MaybeBool → Option Bool
to_option just_false = some false
to_option just_true = some true
to_option nothing = none

unfoldable pub from_option : Option Bool → MaybeBool
from_option (some false) = just_false
from_option (some true) = just_true
from_option none = nothing

-- The two conversions of `MaybeBool` are inverse to each other.
pub to_option-from_option :
    ((b : MaybeBool) → from_option (to_option b) ≡ b)
    × ((o : Option Bool) → to_option (from_option o) ≡ o)
unfolding to_option from_option
to_option-from_option = (there, back)
  where
    there : (b : MaybeBool) → from_option (to_option b) ≡ b
    there just_false = refl
    there just_true = refl
    there nothing = refl

    back : (o : Option Bool) → to_option (from_option o) ≡ o
    back (some false) = refl
    back (some true) = refl
    back none = refl

-- `FieldOffset::from_ptrs`, for an embedder and a field of these sizes. The ends of objects
-- are addresses too, so that the sums of `usize` do not overflow.
unfoldable pub from_ptrs : ℕ → ℕ → ℕ → ℕ → Option ℕ
from_ptrs embedder_size field_size embedder_addr field_addr = do
  assert (leb embedder_addr field_addr)
  assert (leb (field_addr + field_size) (embedder_addr + embedder_size))
  some (field_addr - embedder_addr)

-- `FieldOffset::to_embedder`: the subtraction panics below 0, as it does where
-- overflow is checked, and the null pointer is refused.
unfoldable pub to_embedder : ℕ → ℕ → Option ℕ
to_embedder offset field_addr = do
  assert (leb offset field_addr)
  assert (not (field_addr - offset == 0))
  some (field_addr - offset)

-- Whether a field lies within an embedder.
abbrev pub IsWithin : ℕ → ℕ → ℕ → ℕ → Type 0
IsWithin embedder_size field_size embedder_addr field_addr =
    (embedder_addr ≤ field_addr) × (field_addr + field_size ≤ embedder_addr + embedder_size)

-- An offset is made just of a field that lies within its embedder.
pub from_ptrs_lem :
    (embedder_size field_size embedder_addr field_addr offset : ℕ)
    → (from_ptrs embedder_size field_size embedder_addr field_addr ≡ some offset)
      ↔ IsWithin embedder_size field_size embedder_addr field_addr
        × (embedder_addr + offset ≡ field_addr)
unfolding from_ptrs
from_ptrs_lem embedder_size field_size embedder_addr field_addr offset =
    by_tests (leb embedder_addr field_addr)
      (leb (field_addr + field_size) (embedder_addr + embedder_size)) refl refl
  where
    by_tests :
        (above within : Bool)
        → leb embedder_addr field_addr ≡ above
        → leb (field_addr + field_size) (embedder_addr + embedder_size) ≡ within
        → ((assert above >>= λ _. assert within >>= λ _. some (field_addr - embedder_addr))
            ≡ some offset)
          ↔ IsWithin embedder_size field_size embedder_addr field_addr
            × (embedder_addr + offset ≡ field_addr)
    by_tests false within e f = (λ h. cc, λ (inside, _). ground arith)
    by_tests true false e f = (λ h. cc, λ (inside, _). ground arith)
    by_tests true true e f = (
      (λ h. let same : field_addr - embedder_addr ≡ offset = cc in ground arith),
      (λ (inside, same).
          let diff : field_addr - embedder_addr ≡ offset = omega arith in rw diff refl),
    )

-- An offset that is made of one embedder leads from the same field of any other embedder, which is
-- not at the null address, back to it.
pub to_embedder-from_ptrs :
    (embedder_size field_size embedder_addr field_addr offset other : ℕ)
    → from_ptrs embedder_size field_size embedder_addr field_addr ≡ some offset
    → 0 < other
    → to_embedder offset (other + (field_addr - embedder_addr)) ≡ some other
unfolding to_embedder
to_embedder-from_ptrs embedder_size field_size embedder_addr field_addr offset other h p =
    let (inside, same) =
      (from_ptrs_lem embedder_size field_size embedder_addr field_addr offset).0 h in
    let here : other + (field_addr - embedder_addr) - offset ≡ other = omega arith in
    let fits : leb offset (other + (field_addr - embedder_addr)) ≡ true = ground arith in
    let not_null : (other == 0) ≡ false = ground arith in rw (fits, here, not_null) refl
