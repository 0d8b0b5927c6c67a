-- ===== src/Data/Wrappers.antt =====
-- The trait implementations of src/data.rs for wrapper objects, functions, maps and promises.
use rusty_v.Base.{true, [], ◌∷◌, some}
use rusty_v.Data.Classes.{
  Impls, big_int_object, boolean_object, both, cast_test, data_class, date, function,
  get_identity_hash, identity, map_class, number_object, object, promise, promise_resolver, test,
  value,
}

unfoldable pub big_int_object_impls : Impls
big_int_object_impls = record {
  deref = some object;
  try_from =
      (data_class, both (test value) (cast_test value big_int_object))
      ∷ (value, test big_int_object)
      ∷ (object, test big_int_object)
      ∷ [];
  from = [];
  is_eq = true;
  partial_eq =
      (data_class, identity)
      ∷ (value, identity)
      ∷ (object, identity)
      ∷ (big_int_object, identity)
      ∷ [];
  hash = some get_identity_hash;
}

unfoldable pub boolean_object_impls : Impls
boolean_object_impls = record {
  deref = some object;
  try_from =
      (data_class, both (test value) (cast_test value boolean_object))
      ∷ (value, test boolean_object)
      ∷ (object, test boolean_object)
      ∷ [];
  from = [];
  is_eq = true;
  partial_eq =
      (data_class, identity)
      ∷ (value, identity)
      ∷ (object, identity)
      ∷ (boolean_object, identity)
      ∷ [];
  hash = some get_identity_hash;
}

unfoldable pub date_impls : Impls
date_impls = record {
  deref = some object;
  try_from =
      (data_class, both (test value) (cast_test value date))
      ∷ (value, test date)
      ∷ (object, test date)
      ∷ [];
  from = [];
  is_eq = true;
  partial_eq =
      (data_class, identity) ∷ (value, identity) ∷ (object, identity) ∷ (date, identity) ∷ [];
  hash = some get_identity_hash;
}

unfoldable pub function_impls : Impls
function_impls = record {
  deref = some object;
  try_from =
      (data_class, both (test value) (cast_test value function))
      ∷ (value, test function)
      ∷ (object, test function)
      ∷ [];
  from = [];
  is_eq = true;
  partial_eq =
      (data_class, identity) ∷ (value, identity) ∷ (object, identity) ∷ (function, identity) ∷ [];
  hash = some get_identity_hash;
}

unfoldable pub map_class_impls : Impls
map_class_impls = record {
  deref = some object;
  try_from =
      (data_class, both (test value) (cast_test value map_class))
      ∷ (value, test map_class)
      ∷ (object, test map_class)
      ∷ [];
  from = [];
  is_eq = true;
  partial_eq =
      (data_class, identity) ∷ (value, identity) ∷ (object, identity) ∷ (map_class, identity) ∷ [];
  hash = some get_identity_hash;
}

unfoldable pub number_object_impls : Impls
number_object_impls = record {
  deref = some object;
  try_from =
      (data_class, both (test value) (cast_test value number_object))
      ∷ (value, test number_object)
      ∷ (object, test number_object)
      ∷ [];
  from = [];
  is_eq = true;
  partial_eq =
      (data_class, identity)
      ∷ (value, identity)
      ∷ (object, identity)
      ∷ (number_object, identity)
      ∷ [];
  hash = some get_identity_hash;
}

unfoldable pub promise_impls : Impls
promise_impls = record {
  deref = some object;
  try_from =
      (data_class, both (test value) (cast_test value promise))
      ∷ (value, test promise)
      ∷ (object, test promise)
      ∷ [];
  from = [];
  is_eq = true;
  partial_eq =
      (data_class, identity) ∷ (value, identity) ∷ (object, identity) ∷ (promise, identity) ∷ [];
  hash = some get_identity_hash;
}

unfoldable pub promise_resolver_impls : Impls
promise_resolver_impls = record {
  deref = some object;
  try_from = [];
  from = [];
  is_eq = true;
  partial_eq =
      (data_class, identity)
      ∷ (value, identity)
      ∷ (object, identity)
      ∷ (promise_resolver, identity)
      ∷ [];
  hash = some get_identity_hash;
}
