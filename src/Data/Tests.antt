-- ===== src/Data/Tests.antt =====
-- Conversions and comparisons at single classes, and instances of the theorems.
use rusty_v.Base.{
  ◌≡◌, refl, Bool, true, false, not, ◌||◌, if◌then◌else◌, Option, none, some, all, arith,
}
use rusty_v.Data.Classes.{
  Class, Check, test, cast_test, both, data_class, value, object, number, string_class,
  float16_array, uint8_array, array_buffer_view,
}
use rusty_v.Data.Table.{classes, impls}
use rusty_v.Data.Conversions.{
  same_class, is_superclass, has_from, find_check, try_from, converted, bad_type,
}
use rusty_v.Data.Conversions.Enumeration.{every_class}
use rusty_v.Data.Conversions.Casts.{IsObject, is_target, try_from_lem}
use rusty_v.Data.Equality.{Engine, IsJavaScript, comparison}
use rusty_v.Data.Equality.Laws.{mirrored, comparison_comm}

string-into-value : has_from value string_class ≡ true
unfolding has_from
string-into-value = refl

-- The conversion that is missing.
float16_array-into-value : has_from value float16_array ≡ false
unfolding has_from
float16_array-into-value = refl

-- An object whose narrowest class is `c`.
abbrev of_class : Class → Class → Bool
of_class c a = same_class a c || is_superclass a c

abbrev goes_up : (Class → Bool) → Class → Option Class → Bool
goes_up is_instance c none = true
goes_up is_instance c (some d) = if is_instance c then is_instance d else true

string_goes_up : all (λ c. goes_up (of_class string_class) c (impls c).deref) classes ≡ true
unfolding impls is_superclass
string_goes_up = refl

goes_up_lem :
    (is_instance : Class → Bool) (c d : Class) (o : Option Class)
    → goes_up is_instance c o ≡ true
    → o ≡ some d
    → is_instance c ≡ true
    → is_instance d ≡ true
goes_up_lem is_instance c d none h e i = cc
goes_up_lem is_instance c d (some a) h e i = ground (arith)

a_string-IsObject : IsObject (of_class string_class)
unfolding is_superclass
a_string-IsObject = record {
  up = λ c d e i.
      goes_up_lem (of_class string_class) c d (impls c).deref
        (every_class (λ a. goes_up (of_class string_class) a (impls a).deref) string_goes_up c) e i;
  templates = refl;
}

abbrev data_to_object : Check
data_to_object = both (test value) (cast_test value object)

finds_object : find_check data_class (impls object).try_from ≡ some data_to_object
unfolding find_check impls
finds_object = refl

-- A string is no object.
try_from_lem_example :
    try_from object data_class (of_class string_class) data_to_object
    ≡ some (
        if is_target (of_class string_class) object
        then converted object
        else bad_type object data_class)
try_from_lem_example =
    try_from_lem object data_class data_to_object (of_class string_class) a_string-IsObject
      finds_object

comparison_comm_example :
    comparison uint8_array array_buffer_view ≡ mirrored uint8_array array_buffer_view
comparison_comm_example = comparison_comm uint8_array array_buffer_view

-- Two values: NaN, and a string.
abbrev class_of : Bool → Class
class_of true = number
class_of false = string_class

abbrev two_values : Engine
two_values = record {
  Obj = Bool;
  is_instance = λ o c. of_class (class_of o) c;
  data_eq = λ a b. if a then b else not b;
  js_strict_equals = λ a b. if a then false else not b;
  same_value = λ a b. if a then b else not b;
  zero_value = false;
}

nan_class_lem :
    (o : Bool) (c : Class) → o ≡ true → of_class (class_of o) c ≡ true → of_class number c ≡ true
nan_class_lem true c e i = i
nan_class_lem false c e i = cc

data_eq_lem : (o : Bool) → (if o then o else not o) ≡ true
data_eq_lem true = refl
data_eq_lem false = refl

strict_lem : (o : Bool) → (if o then false else not o) ≡ not o
strict_lem true = refl
strict_lem false = refl

two_values-IsJavaScript : IsJavaScript two_values (λ o. o)
two_values-IsJavaScript = record {
  data_eq_refl = data_eq_lem;
  same_value_refl = data_eq_lem;
  strict_equals_refl = strict_lem;
  nan_class = λ o c e i. nan_class_lem o c e i;
}

nan_is_number : of_class number number ≡ true
unfolding is_superclass
nan_is_number = refl

number_is_eq : (impls number).is_eq ≡ true
unfolding impls
number_is_eq = refl
