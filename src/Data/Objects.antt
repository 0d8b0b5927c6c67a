-- ===== src/Data/Objects.antt =====
-- The trait implementations of src/data.rs for values, externals, objects and arrays.
use rusty_v.Base.{true, [], ◌∷◌, some}
use rusty_v.Data.Classes.{
  Impls, array, array_buffer, array_buffer_view, big_int, big_int64_array, big_int_object,
  big_uint64_array, boolean, boolean_object, both, cast_test, data_class, data_view, date, external,
  float32_array, float64_array, function, get_hash, get_identity_hash, identity, int16_array, int32,
  int32_array, int8_array, integer, map_class, name, number, number_object, object, primitive,
  promise, promise_resolver, proxy, reg_exp, same_value_zero, set_class, shared_array_buffer,
  string_class, string_object, symbol_class, symbol_object, test, typed_array, uint16_array, uint32,
  uint32_array, uint8_array, uint8_clamped_array, value, wasm_memory_object, wasm_module_object,
}

unfoldable pub value_impls : Impls
value_impls = record {
  deref = some data_class;
  try_from = (data_class, test value) ∷ [];
  from =
      external ∷ object ∷ array ∷ array_buffer ∷ array_buffer_view ∷ data_view ∷ typed_array
      ∷ big_int64_array ∷ big_uint64_array ∷ float32_array ∷ float64_array ∷ int16_array
      ∷ int32_array ∷ int8_array ∷ uint16_array ∷ uint32_array ∷ uint8_array ∷ uint8_clamped_array
      ∷ big_int_object ∷ boolean_object ∷ date ∷ function ∷ map_class ∷ number_object ∷ promise
      ∷ promise_resolver ∷ proxy ∷ reg_exp ∷ set_class ∷ shared_array_buffer ∷ string_object
      ∷ symbol_object ∷ wasm_memory_object ∷ wasm_module_object ∷ primitive ∷ big_int ∷ boolean
      ∷ name ∷ string_class ∷ symbol_class ∷ number ∷ integer ∷ int32 ∷ uint32 ∷ [];
  is_eq = true;
  partial_eq =
      (value, same_value_zero)
      ∷ (external, identity)
      ∷ (object, identity)
      ∷ (array, identity)
      ∷ (array_buffer, identity)
      ∷ (array_buffer_view, identity)
      ∷ (data_view, identity)
      ∷ (typed_array, identity)
      ∷ (big_int64_array, identity)
      ∷ (big_uint64_array, identity)
      ∷ (float32_array, identity)
      ∷ (float64_array, identity)
      ∷ (int16_array, identity)
      ∷ (int32_array, identity)
      ∷ (int8_array, identity)
      ∷ (uint16_array, identity)
      ∷ (uint32_array, identity)
      ∷ (uint8_array, identity)
      ∷ (uint8_clamped_array, identity)
      ∷ (big_int_object, identity)
      ∷ (boolean_object, identity)
      ∷ (date, identity)
      ∷ (function, identity)
      ∷ (map_class, identity)
      ∷ (number_object, identity)
      ∷ (promise, identity)
      ∷ (promise_resolver, identity)
      ∷ (proxy, identity)
      ∷ (reg_exp, identity)
      ∷ (set_class, identity)
      ∷ (shared_array_buffer, identity)
      ∷ (string_object, identity)
      ∷ (symbol_object, identity)
      ∷ (wasm_memory_object, identity)
      ∷ (wasm_module_object, identity)
      ∷ (primitive, same_value_zero)
      ∷ (big_int, same_value_zero)
      ∷ (boolean, identity)
      ∷ (name, same_value_zero)
      ∷ (string_class, same_value_zero)
      ∷ (symbol_class, identity)
      ∷ (number, same_value_zero)
      ∷ (integer, same_value_zero)
      ∷ (int32, same_value_zero)
      ∷ (uint32, same_value_zero)
      ∷ [];
  hash = some get_hash;
}

unfoldable pub external_impls : Impls
external_impls = record {
  deref = some value;
  try_from =
      (data_class, both (test value) (cast_test value external)) ∷ (value, test external) ∷ [];
  from = [];
  is_eq = true;
  partial_eq = (data_class, identity) ∷ (value, identity) ∷ (external, identity) ∷ [];
  hash = some get_hash;
}

unfoldable pub object_impls : Impls
object_impls = record {
  deref = some value;
  try_from = (data_class, both (test value) (cast_test value object)) ∷ (value, test object) ∷ [];
  from =
      array ∷ array_buffer ∷ array_buffer_view ∷ data_view ∷ typed_array ∷ big_int64_array
      ∷ big_uint64_array ∷ float32_array ∷ float64_array ∷ int16_array ∷ int32_array ∷ int8_array
      ∷ uint16_array ∷ uint32_array ∷ uint8_array ∷ uint8_clamped_array ∷ big_int_object
      ∷ boolean_object ∷ date ∷ function ∷ map_class ∷ number_object ∷ promise ∷ promise_resolver
      ∷ proxy ∷ reg_exp ∷ set_class ∷ shared_array_buffer ∷ string_object ∷ symbol_object
      ∷ wasm_memory_object ∷ wasm_module_object ∷ [];
  is_eq = true;
  partial_eq =
      (data_class, identity)
      ∷ (value, identity)
      ∷ (object, identity)
      ∷ (array, identity)
      ∷ (array_buffer, identity)
      ∷ (array_buffer_view, identity)
      ∷ (data_view, identity)
      ∷ (typed_array, identity)
      ∷ (big_int64_array, identity)
      ∷ (big_uint64_array, identity)
      ∷ (float32_array, identity)
      ∷ (float64_array, identity)
      ∷ (int16_array, identity)
      ∷ (int32_array, identity)
      ∷ (int8_array, identity)
      ∷ (uint16_array, identity)
      ∷ (uint32_array, identity)
      ∷ (uint8_array, identity)
      ∷ (uint8_clamped_array, identity)
      ∷ (big_int_object, identity)
      ∷ (boolean_object, identity)
      ∷ (date, identity)
      ∷ (function, identity)
      ∷ (map_class, identity)
      ∷ (number_object, identity)
      ∷ (promise, identity)
      ∷ (promise_resolver, identity)
      ∷ (proxy, identity)
      ∷ (reg_exp, identity)
      ∷ (set_class, identity)
      ∷ (shared_array_buffer, identity)
      ∷ (string_object, identity)
      ∷ (symbol_object, identity)
      ∷ (wasm_memory_object, identity)
      ∷ (wasm_module_object, identity)
      ∷ [];
  hash = some get_identity_hash;
}

unfoldable pub array_impls : Impls
array_impls = record {
  deref = some object;
  try_from =
      (data_class, both (test value) (cast_test value array))
      ∷ (value, test array)
      ∷ (object, test array)
      ∷ [];
  from = [];
  is_eq = true;
  partial_eq =
      (data_class, identity) ∷ (value, identity) ∷ (object, identity) ∷ (array, identity) ∷ [];
  hash = some get_identity_hash;
}
