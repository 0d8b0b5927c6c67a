-- ===== src/Data/Equality/Laws.antt =====
-- The laws that Rust asks of `PartialEq` and `Eq`.
use rusty_v.Base.{
  ◌≡◌, refl, Bool, true, false, not, ◌||◌, if◌then◌else◌, Option, none, some, all, Bool-cases, inl,
  inr,
}
use rusty_v.Data.Classes.{
  Class, Comparison, identity, strict_equals, same_value_zero, number, float16_array,
}
use rusty_v.Data.Table.{impls, classes}
use rusty_v.Data.Conversions.{same_class, is_superclass}
use rusty_v.Data.Conversions.Enumeration.{every_class}
use rusty_v.Data.Equality.{Engine, IsJavaScript, comparison, eq_by}

abbrev same_comparison : Option Comparison → Option Comparison → Bool
same_comparison none none = true
same_comparison (some identity) (some identity) = true
same_comparison (some strict_equals) (some strict_equals) = true
same_comparison (some same_value_zero) (some same_value_zero) = true
same_comparison _ _ = false

same_comparison-eq : (a b : Option Comparison) → same_comparison a b ≡ true → a ≡ b
same_comparison-eq none none h = refl
same_comparison-eq (some identity) (some identity) h = refl
same_comparison-eq (some strict_equals) (some strict_equals) h = refl
same_comparison-eq (some same_value_zero) (some same_value_zero) h = refl
same_comparison-eq _ _ h = cc

-- The mirror image of an implementation; a `Float16Array` has none in its superclasses.
abbrev pub mirrored : Class → Class → Option Comparison
mirrored this other =
    if same_class this other
    then comparison this other
    else (if same_class other float16_array
        then none
        else (if same_class this float16_array
            then (if is_superclass other this then some identity else none)
            else comparison other this))

symmetry_table :
    all (λ t. all (λ r. same_comparison (comparison t r) (mirrored t r)) classes) classes ≡ true
unfolding comparison is_superclass
symmetry_table = refl

-- Two classes are compared in either order by the same comparison, or in neither, with one exception:
-- a `Float16Array` is compared with each of its superclasses by identity, and none of them with it.
pub comparison_comm : (this other : Class) → comparison this other ≡ mirrored this other
comparison_comm this other = same_comparison-eq _ _ (
    every_class (λ r. same_comparison (comparison this r) (mirrored this r))
      (every_class (λ t. all (λ r. same_comparison (comparison t r) (mirrored t r)) classes)
        symmetry_table this)
      other)

-- A comparison with itself that no object of the class fails.
abbrev reflexive_entry : Class → Option Comparison → Bool
reflexive_entry c none = false
reflexive_entry c (some identity) = true
reflexive_entry c (some strict_equals) = not (same_class c number || is_superclass c number)
reflexive_entry c (some same_value_zero) = true

reflexive_table :
    all (λ c. if (impls c).is_eq then reflexive_entry c (comparison c c) else true) classes ≡ true
unfolding impls comparison is_superclass
reflexive_table = refl

module _ (e : Engine) (is_nan : e.Obj → Bool) (js : IsJavaScript e is_nan) where
  reflexive_by :
      (c : Class) (o : e.Obj) (k : Option Comparison)
      → reflexive_entry c k ≡ true
      → e.is_instance o c ≡ true
      → (k' : Comparison) × (k ≡ some k') × (eq_by e k' o o ≡ true)
  unfolding eq_by
  reflexive_by c o none h i = cc
  reflexive_by c o (some identity) h i = (identity, refl, js.data_eq_refl o)
  reflexive_by c o (some same_value_zero) h i =
      (same_value_zero, refl, rw (js.same_value_refl o) refl)
  reflexive_by c o (some strict_equals) h i = (
    strict_equals,
    refl,
    elim (Bool-cases (is_nan o)) [
      | inl nan ↦ cc (rw (js.nan_class o c nan i) at h)
      | inr other ↦ rw (js.strict_equals_refl o, other) refl
    ],
  )

  -- A class that the file declares `Eq` compares with itself, and every object of it is equal to
  -- itself, NaN included.
  pub eq_by_refl :
      (c : Class) (o : e.Obj)
      → (impls c).is_eq ≡ true
      → e.is_instance o c ≡ true
      → (k : Comparison) × (comparison c c ≡ some k) × (eq_by e k o o ≡ true)
  eq_by_refl c o declared i =
      let entry =
        every_class (λ a. if (impls a).is_eq then reflexive_entry a (comparison a a) else true)
          reflexive_table c in
      reflexive_by c o (comparison c c) (rw declared at entry) i
