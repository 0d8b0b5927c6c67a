-- ===== src/Data/Conversions.antt =====
-- The conversions between classes: `Deref`, `From`, `TryFrom` (src/data.rs).
pub mod Enumeration
pub mod Hierarchy
pub mod Casts
use rusty_v.Base.{
  ℕ, zero, suc, Bool, true, false, if◌then◌else◌, ◌||◌, ◌==◌, List, [], ◌∷◌, Option, none, some,
  ◌>>=◌, ◌>>◌,
}
use rusty_v.Data.Classes.{Class, Check, test, cast_test, both, either, Impls, index}
use rusty_v.Data.Table.{impls}

abbrev pub same_class : Class → Class → Bool
same_class a b = index a == index b

unfoldable pub has_class : Class → List Class → Bool
has_class c [] = false
has_class c (a ∷ rest) = if same_class c a then true else has_class c rest

-- Whether the file implements `From<Local<source>> for Local<target>`.
unfoldable pub has_from : Class → Class → Bool
unfolding has_class impls
has_from target source = has_class source (impls target).from

-- The classes that `Deref` leads to, one after the other.
unfoldable pub superclasses : ℕ → Class → List Class
unfolding impls
superclasses zero c = []
superclasses (suc fuel) c = elim (impls c).deref [ none ↦ [] | some d ↦ d ∷ superclasses fuel d ]

unfoldable pub is_superclass : Class → Class → Bool
unfolding superclasses has_class
is_superclass target source = has_class target (superclasses 6 source)

-- The object behind a handle is known by the classes that it is an instance of. `none` is a predicate
-- that is asked of an object of another class than its method is for.
unfoldable pub eval_check : (Class → Bool) → Check → Option Bool
eval_check is_instance (test c) = some (is_instance c)
eval_check is_instance (cast_test s c) = if is_instance s then some (is_instance c) else none
eval_check is_instance (both a b) =
    let second = eval_check is_instance b in
    do first ← eval_check is_instance a; if first then second else some false
eval_check is_instance (either a b) =
    let second = eval_check is_instance b in
    do first ← eval_check is_instance a; if first then some true else second

-- `DataError::BadType`, or the handle under its new type.
pub data Conversion : Type 0 where
  converted : Class → Conversion
  bad_type : Class → Class → Conversion

unfoldable pub find_check : Class → List (Class × Check) → Option Check
find_check s [] = none
find_check s ((a, c) ∷ rest) = if same_class s a then some c else find_check s rest

-- `try_from` of a handle of type `source`, where the file implements it under the check.
unfoldable pub try_from : Class → Class → (Class → Bool) → Check → Option Conversion
try_from target source is_instance check = do
  matches ← eval_check is_instance check
  some (if matches then converted target else bad_type target source)
