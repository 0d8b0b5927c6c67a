-- ===== src/Data/Conversions/Hierarchy.antt =====
-- The conversions go up the hierarchy.
use rusty_v.Base.{◌≡◌, refl, Bool, true, false, if◌then◌else◌, all, arith, ltb, length}
use rusty_v.Data.Classes.{Class, data_class, float16_array, unbound_script}
use rusty_v.Data.Table.{classes}
use rusty_v.Data.Conversions.{same_class, has_from, is_superclass, superclasses}
use rusty_v.Data.Conversions.Enumeration.{every_class}

abbrev pub expected_from : Class → Class → Bool
expected_from target source =
    if same_class source float16_array
    then false
    else (if same_class source unbound_script
        then same_class target data_class
        else is_superclass target source)

abbrev agree : Bool → Bool → Bool
agree true b = b
agree false true = false
agree false false = true

-- The walk to the superclasses has fuel to spare.
length-superclasses : all (λ c. ltb (length (superclasses 6 c)) 6) classes ≡ true
unfolding superclasses
length-superclasses = refl

agree-eq : (a b : Bool) → agree a b ≡ true → a ≡ b
agree-eq a b h = ground arith

table : all (λ t. all (λ s. agree (has_from t s) (expected_from t s)) classes) classes ≡ true
unfolding has_from is_superclass
table = refl

-- There is a `From` just from a class to each class that `Deref` leads to from it, with two exceptions:
-- from `Float16Array` there is none, and from `UnboundScript`, which has no `Deref`, there is one to
-- `Data`.
pub has_from_lem : (target source : Class) → has_from target source ≡ expected_from target source
has_from_lem target source = agree-eq _ _ (
    every_class (λ s. agree (has_from target s) (expected_from target s))
      (every_class (λ t. all (λ s. agree (has_from t s) (expected_from t s)) classes) table target)
      source)
