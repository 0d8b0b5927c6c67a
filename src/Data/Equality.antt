-- ===== src/Data/Equality.antt =====
-- Equality of handles (src/data.rs): `PartialEq` and `Eq`.
--
-- What C++ does is a parameter: the objects, the classes that they are instances of, and V8's three
-- comparisons.
pub mod Laws
use rusty_v.Base.{
  Bool, true, false, not, ◌&&◌, ◌||◌, if◌then◌else◌, ◌≡◌, List, [], ◌∷◌, Option, none, some,
}
use rusty_v.Data.Classes.{
  Class, Comparison, identity, strict_equals, same_value_zero, Impls, number,
}
use rusty_v.Data.Table.{impls}
use rusty_v.Data.Conversions.{same_class, is_superclass}

pub record Engine : Type 1 where
  pub Obj : Type 0
  pub is_instance : Obj → Class → Bool
  -- `v8__Data__EQ`, `v8__Value__StrictEquals`, `v8__Value__SameValue`, and the integer zero.
  pub data_eq : Obj → Obj → Bool
  pub js_strict_equals : Obj → Obj → Bool
  pub same_value : Obj → Obj → Bool
  pub zero_value : Obj

-- What JavaScript says of them: an object is the same as itself, and strictly equal to itself unless
-- it is NaN, which is a number of no narrower class.
pub record IsJavaScript (e : Engine) (is_nan : e.Obj → Bool) : Type 0 where
  pub data_eq_refl : (o : e.Obj) → e.data_eq o o ≡ true
  pub same_value_refl : (o : e.Obj) → e.same_value o o ≡ true
  pub strict_equals_refl : (o : e.Obj) → e.js_strict_equals o o ≡ not (is_nan o)
  pub nan_class :
      (o : e.Obj) (c : Class)
      → is_nan o ≡ true
      → e.is_instance o c ≡ true
      → (same_class c number || is_superclass c number) ≡ true

unfoldable pub find_comparison : Class → List (Class × Comparison) → Option Comparison
find_comparison r [] = none
find_comparison r ((a, k) ∷ rest) = if same_class r a then some k else find_comparison r rest

-- The comparison by which the file implements `PartialEq<other> for this`, if it does.
unfoldable pub comparison : Class → Class → Option Comparison
unfolding find_comparison impls
comparison this other = find_comparison other (impls this).partial_eq

module _ (e : Engine) where
  -- The bodies of `eq` of `impl_partial_eq!`.
  unfoldable pub eq_by : Comparison → e.Obj → e.Obj → Bool
  eq_by identity a b = e.data_eq a b
  eq_by strict_equals a b = e.js_strict_equals a b
  eq_by same_value_zero a b =
      e.same_value a b || (e.js_strict_equals a e.zero_value && e.js_strict_equals b e.zero_value)
