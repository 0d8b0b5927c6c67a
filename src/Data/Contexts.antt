-- ===== src/Data/Contexts.antt =====
-- The trait implementations of src/data.rs for all data, contexts, modules and their like.
use rusty_v.Base.{true, false, [], ◌∷◌, none, some}
use rusty_v.Data.Classes.{
  Impls, accessor_signature, array, array_buffer, array_buffer_view, big_int, big_int64_array,
  big_int_object, big_uint64_array, boolean, boolean_object, context, data_class, data_view, date,
  external, fixed_array, float32_array, float64_array, function, function_template,
  get_identity_hash, identity, int16_array, int32, int32_array, int8_array, integer, map_class,
  message, module_class, module_request, name, number, number_object, object, object_template,
  primitive, primitive_array, private, promise, promise_resolver, proxy, reg_exp, set_class,
  shared_array_buffer, signature, string_class, string_object, symbol_class, symbol_object,
  template, test, typed_array, uint16_array, uint32, uint32_array, uint8_array, uint8_clamped_array,
  unbound_module_script, unbound_script, value, wasm_memory_object, wasm_module_object,
}

unfoldable pub data_class_impls : Impls
data_class_impls = record {
  deref = none;
  try_from = [];
  from =
      accessor_signature ∷ context ∷ fixed_array ∷ module_class ∷ module_request ∷ primitive_array
      ∷ private ∷ signature ∷ template ∷ function_template ∷ object_template ∷ unbound_module_script
      ∷ unbound_script ∷ value ∷ external ∷ object ∷ array ∷ array_buffer ∷ array_buffer_view
      ∷ data_view ∷ typed_array ∷ big_int64_array ∷ big_uint64_array ∷ float32_array ∷ float64_array
      ∷ int16_array ∷ int32_array ∷ int8_array ∷ uint16_array ∷ uint32_array ∷ uint8_array
      ∷ uint8_clamped_array ∷ big_int_object ∷ boolean_object ∷ date ∷ function ∷ map_class
      ∷ number_object ∷ promise ∷ promise_resolver ∷ proxy ∷ reg_exp ∷ set_class
      ∷ shared_array_buffer ∷ string_object ∷ symbol_object ∷ wasm_memory_object
      ∷ wasm_module_object ∷ primitive ∷ big_int ∷ boolean ∷ name ∷ string_class ∷ symbol_class
      ∷ number ∷ integer ∷ int32 ∷ uint32 ∷ [];
  is_eq = false;
  partial_eq =
      (accessor_signature, identity)
      ∷ (context, identity)
      ∷ (fixed_array, identity)
      ∷ (module_class, identity)
      ∷ (module_request, identity)
      ∷ (primitive_array, identity)
      ∷ (private, identity)
      ∷ (signature, identity)
      ∷ (template, identity)
      ∷ (function_template, identity)
      ∷ (object_template, identity)
      ∷ (unbound_module_script, identity)
      ∷ (external, identity)
      ∷ (object, identity)
      ∷ (array, identity)
      ∷ (array_buffer, identity)
      ∷ (array_buffer_view, identity)
      ∷ (data_view, identity)
      ∷ (typed_array, identity)
      ∷ (big_int64_array, identity)
      ∷ (big_uint64_array, identity)
      ∷ (float32_array, identity)
      ∷ (float64_array, identity)
      ∷ (int16_array, identity)
      ∷ (int32_array, identity)
      ∷ (int8_array, identity)
      ∷ (uint16_array, identity)
      ∷ (uint32_array, identity)
      ∷ (uint8_array, identity)
      ∷ (uint8_clamped_array, identity)
      ∷ (big_int_object, identity)
      ∷ (boolean_object, identity)
      ∷ (date, identity)
      ∷ (function, identity)
      ∷ (map_class, identity)
      ∷ (number_object, identity)
      ∷ (promise, identity)
      ∷ (promise_resolver, identity)
      ∷ (proxy, identity)
      ∷ (reg_exp, identity)
      ∷ (set_class, identity)
      ∷ (shared_array_buffer, identity)
      ∷ (string_object, identity)
      ∷ (symbol_object, identity)
      ∷ (wasm_memory_object, identity)
      ∷ (wasm_module_object, identity)
      ∷ (boolean, identity)
      ∷ (symbol_class, identity)
      ∷ [];
  hash = none;
}

unfoldable pub accessor_signature_impls : Impls
accessor_signature_impls = record {
  deref = some data_class;
  try_from = [];
  from = [];
  is_eq = true;
  partial_eq = (data_class, identity) ∷ (accessor_signature, identity) ∷ [];
  hash = none;
}

unfoldable pub context_impls : Impls
context_impls = record {
  deref = some data_class;
  try_from = (data_class, test context) ∷ [];
  from = [];
  is_eq = true;
  partial_eq = (data_class, identity) ∷ (context, identity) ∷ [];
  hash = none;
}

unfoldable pub fixed_array_impls : Impls
fixed_array_impls = record {
  deref = some data_class;
  try_from = (data_class, test fixed_array) ∷ [];
  from = [];
  is_eq = true;
  partial_eq = (data_class, identity) ∷ (fixed_array, identity) ∷ [];
  hash = none;
}

unfoldable pub message_impls : Impls
message_impls = record {
  deref = none;
  try_from = [];
  from = [];
  is_eq = true;
  partial_eq = (message, identity) ∷ [];
  hash = none;
}

unfoldable pub module_class_impls : Impls
module_class_impls = record {
  deref = some data_class;
  try_from = (data_class, test module_class) ∷ [];
  from = [];
  is_eq = true;
  partial_eq = (data_class, identity) ∷ (module_class, identity) ∷ [];
  hash = some get_identity_hash;
}

unfoldable pub module_request_impls : Impls
module_request_impls = record {
  deref = some data_class;
  try_from = (data_class, test module_request) ∷ [];
  from = [];
  is_eq = true;
  partial_eq = (data_class, identity) ∷ (module_request, identity) ∷ [];
  hash = none;
}

unfoldable pub primitive_array_impls : Impls
primitive_array_impls = record {
  deref = some data_class;
  try_from = [];
  from = [];
  is_eq = true;
  partial_eq = (data_class, identity) ∷ (primitive_array, identity) ∷ [];
  hash = none;
}

unfoldable pub private_impls : Impls
private_impls = record {
  deref = some data_class;
  try_from = (data_class, test private) ∷ [];
  from = [];
  is_eq = true;
  partial_eq = (data_class, identity) ∷ (private, identity) ∷ [];
  hash = none;
}
