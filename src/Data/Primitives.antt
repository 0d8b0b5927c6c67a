-- ===== src/Data/Primitives.antt =====
-- The trait implementations of src/data.rs for primitive values.
use rusty_v.Base.{true, [], ◌∷◌, some}
use rusty_v.Data.Classes.{
  Impls, big_int, boolean, both, cast_test, data_class, either, get_hash, get_identity_hash,
  identity, int32, integer, name, number, primitive, same_value_zero, strict_equals, string_class,
  symbol_class, test, uint32, value,
}

unfoldable pub primitive_impls : Impls
primitive_impls = record {
  deref = some value;
  try_from = (data_class, test primitive) ∷ (value, test primitive) ∷ [];
  from =
      big_int ∷ boolean ∷ name ∷ string_class ∷ symbol_class ∷ number ∷ integer ∷ int32 ∷ uint32
      ∷ [];
  is_eq = true;
  partial_eq =
      (value, same_value_zero)
      ∷ (primitive, same_value_zero)
      ∷ (big_int, same_value_zero)
      ∷ (boolean, identity)
      ∷ (name, same_value_zero)
      ∷ (string_class, same_value_zero)
      ∷ (symbol_class, identity)
      ∷ (number, same_value_zero)
      ∷ (integer, same_value_zero)
      ∷ (int32, same_value_zero)
      ∷ (uint32, same_value_zero)
      ∷ [];
  hash = some get_hash;
}

unfoldable pub big_int_impls : Impls
big_int_impls = record {
  deref = some primitive;
  try_from = (data_class, test big_int) ∷ (value, test big_int) ∷ (primitive, test big_int) ∷ [];
  from = [];
  is_eq = true;
  partial_eq =
      (value, same_value_zero) ∷ (primitive, same_value_zero) ∷ (big_int, strict_equals) ∷ [];
  hash = some get_hash;
}

unfoldable pub boolean_impls : Impls
boolean_impls = record {
  deref = some primitive;
  try_from = (data_class, test boolean) ∷ (value, test boolean) ∷ (primitive, test boolean) ∷ [];
  from = [];
  is_eq = true;
  partial_eq =
      (data_class, identity) ∷ (value, identity) ∷ (primitive, identity) ∷ (boolean, identity) ∷ [];
  hash = some get_hash;
}

unfoldable pub name_impls : Impls
name_impls = record {
  deref = some primitive;
  try_from = (data_class, test name) ∷ (value, test name) ∷ (primitive, test name) ∷ [];
  from = string_class ∷ symbol_class ∷ [];
  is_eq = true;
  partial_eq =
      (value, same_value_zero)
      ∷ (primitive, same_value_zero)
      ∷ (name, strict_equals)
      ∷ (string_class, strict_equals)
      ∷ (symbol_class, identity)
      ∷ [];
  hash = some get_identity_hash;
}

unfoldable pub string_class_impls : Impls
string_class_impls = record {
  deref = some name;
  try_from =
      (data_class, test string_class)
      ∷ (value, test string_class)
      ∷ (primitive, test string_class)
      ∷ (name, test string_class)
      ∷ [];
  from = [];
  is_eq = true;
  partial_eq =
      (value, same_value_zero)
      ∷ (primitive, same_value_zero)
      ∷ (name, strict_equals)
      ∷ (string_class, strict_equals)
      ∷ [];
  hash = some get_identity_hash;
}

unfoldable pub symbol_class_impls : Impls
symbol_class_impls = record {
  deref = some name;
  try_from =
      (data_class, test symbol_class)
      ∷ (value, test symbol_class)
      ∷ (primitive, test symbol_class)
      ∷ (name, test symbol_class)
      ∷ [];
  from = [];
  is_eq = true;
  partial_eq =
      (data_class, identity)
      ∷ (value, identity)
      ∷ (primitive, identity)
      ∷ (name, identity)
      ∷ (symbol_class, identity)
      ∷ [];
  hash = some get_identity_hash;
}

unfoldable pub number_impls : Impls
number_impls = record {
  deref = some primitive;
  try_from = (data_class, test number) ∷ (value, test number) ∷ (primitive, test number) ∷ [];
  from = integer ∷ int32 ∷ uint32 ∷ [];
  is_eq = true;
  partial_eq =
      (value, same_value_zero)
      ∷ (primitive, same_value_zero)
      ∷ (number, same_value_zero)
      ∷ (integer, same_value_zero)
      ∷ (int32, same_value_zero)
      ∷ (uint32, same_value_zero)
      ∷ [];
  hash = some get_hash;
}

unfoldable pub integer_impls : Impls
integer_impls = record {
  deref = some number;
  try_from =
      (data_class, both (test number) (either (cast_test number int32) (cast_test number uint32)))
      ∷ (value, either (test int32) (test uint32))
      ∷ (primitive, either (test int32) (test uint32))
      ∷ (number, either (test int32) (test uint32))
      ∷ [];
  from = int32 ∷ uint32 ∷ [];
  is_eq = true;
  partial_eq =
      (value, same_value_zero)
      ∷ (primitive, same_value_zero)
      ∷ (number, same_value_zero)
      ∷ (integer, strict_equals)
      ∷ (int32, strict_equals)
      ∷ (uint32, strict_equals)
      ∷ [];
  hash = some get_hash;
}

unfoldable pub int32_impls : Impls
int32_impls = record {
  deref = some integer;
  try_from =
      (data_class, both (test number) (cast_test number int32))
      ∷ (value, test int32)
      ∷ (primitive, test int32)
      ∷ (number, test int32)
      ∷ (integer, test int32)
      ∷ [];
  from = [];
  is_eq = true;
  partial_eq =
      (value, same_value_zero)
      ∷ (primitive, same_value_zero)
      ∷ (number, same_value_zero)
      ∷ (integer, strict_equals)
      ∷ (int32, strict_equals)
      ∷ [];
  hash = some get_hash;
}

unfoldable pub uint32_impls : Impls
uint32_impls = record {
  deref = some integer;
  try_from =
      (data_class, both (test number) (cast_test number uint32))
      ∷ (value, test uint32)
      ∷ (primitive, test uint32)
      ∷ (number, test uint32)
      ∷ (integer, test uint32)
      ∷ [];
  from = [];
  is_eq = true;
  partial_eq =
      (value, same_value_zero)
      ∷ (primitive, same_value_zero)
      ∷ (number, same_value_zero)
      ∷ (integer, strict_equals)
      ∷ (uint32, strict_equals)
      ∷ [];
  hash = some get_hash;
}
