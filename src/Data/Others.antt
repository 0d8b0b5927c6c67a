-- ===== src/Data/Others.antt =====
-- The trait implementations of src/data.rs for the other classes of objects.
use rusty_v.Base.{true, [], ◌∷◌, some}
use rusty_v.Data.Classes.{
  Impls, both, cast_test, data_class, get_identity_hash, identity, object, proxy, reg_exp,
  set_class, shared_array_buffer, string_object, symbol_object, test, value, wasm_memory_object,
  wasm_module_object,
}

unfoldable pub proxy_impls : Impls
proxy_impls = record {
  deref = some object;
  try_from =
      (data_class, both (test value) (cast_test value proxy))
      ∷ (value, test proxy)
      ∷ (object, test proxy)
      ∷ [];
  from = [];
  is_eq = true;
  partial_eq =
      (data_class, identity) ∷ (value, identity) ∷ (object, identity) ∷ (proxy, identity) ∷ [];
  hash = some get_identity_hash;
}

unfoldable pub reg_exp_impls : Impls
reg_exp_impls = record {
  deref = some object;
  try_from =
      (data_class, both (test value) (cast_test value reg_exp))
      ∷ (value, test reg_exp)
      ∷ (object, test reg_exp)
      ∷ [];
  from = [];
  is_eq = true;
  partial_eq =
      (data_class, identity) ∷ (value, identity) ∷ (object, identity) ∷ (reg_exp, identity) ∷ [];
  hash = some get_identity_hash;
}

unfoldable pub set_class_impls : Impls
set_class_impls = record {
  deref = some object;
  try_from =
      (data_class, both (test value) (cast_test value set_class))
      ∷ (value, test set_class)
      ∷ (object, test set_class)
      ∷ [];
  from = [];
  is_eq = true;
  partial_eq =
      (data_class, identity) ∷ (value, identity) ∷ (object, identity) ∷ (set_class, identity) ∷ [];
  hash = some get_identity_hash;
}

unfoldable pub shared_array_buffer_impls : Impls
shared_array_buffer_impls = record {
  deref = some object;
  try_from =
      (data_class, both (test value) (cast_test value shared_array_buffer))
      ∷ (value, test shared_array_buffer)
      ∷ (object, test shared_array_buffer)
      ∷ [];
  from = [];
  is_eq = true;
  partial_eq =
      (data_class, identity)
      ∷ (value, identity)
      ∷ (object, identity)
      ∷ (shared_array_buffer, identity)
      ∷ [];
  hash = some get_identity_hash;
}

unfoldable pub string_object_impls : Impls
string_object_impls = record {
  deref = some object;
  try_from =
      (data_class, both (test value) (cast_test value string_object))
      ∷ (value, test string_object)
      ∷ (object, test string_object)
      ∷ [];
  from = [];
  is_eq = true;
  partial_eq =
      (data_class, identity)
      ∷ (value, identity)
      ∷ (object, identity)
      ∷ (string_object, identity)
      ∷ [];
  hash = some get_identity_hash;
}

unfoldable pub symbol_object_impls : Impls
symbol_object_impls = record {
  deref = some object;
  try_from =
      (data_class, both (test value) (cast_test value symbol_object))
      ∷ (value, test symbol_object)
      ∷ (object, test symbol_object)
      ∷ [];
  from = [];
  is_eq = true;
  partial_eq =
      (data_class, identity)
      ∷ (value, identity)
      ∷ (object, identity)
      ∷ (symbol_object, identity)
      ∷ [];
  hash = some get_identity_hash;
}

unfoldable pub wasm_memory_object_impls : Impls
wasm_memory_object_impls = record {
  deref = some object;
  try_from =
      (data_class, both (test value) (cast_test value wasm_memory_object))
      ∷ (value, test wasm_memory_object)
      ∷ (object, test wasm_memory_object)
      ∷ [];
  from = [];
  is_eq = true;
  partial_eq =
      (data_class, identity)
      ∷ (value, identity)
      ∷ (object, identity)
      ∷ (wasm_memory_object, identity)
      ∷ [];
  hash = some get_identity_hash;
}

unfoldable pub wasm_module_object_impls : Impls
wasm_module_object_impls = record {
  deref = some object;
  try_from =
      (data_class, both (test value) (cast_test value wasm_module_object))
      ∷ (value, test wasm_module_object)
      ∷ (object, test wasm_module_object)
      ∷ [];
  from = [];
  is_eq = true;
  partial_eq =
      (data_class, identity)
      ∷ (value, identity)
      ∷ (object, identity)
      ∷ (wasm_module_object, identity)
      ∷ [];
  hash = some get_identity_hash;
}
