-- ===== src/Data/Table.antt =====
-- The implementations of each class together.
use rusty_v.Base.{List, [], ◌∷◌}
use rusty_v.Data.Classes.{
  Class, Impls, data_class, accessor_signature, context, fixed_array, message, module_class,
  module_request, primitive_array, private, script, script_or_module, signature, stack_frame,
  stack_trace, template, function_template, object_template, unbound_module_script, unbound_script,
  value, external, object, array, array_buffer, array_buffer_view, data_view, typed_array,
  big_int64_array, big_uint64_array, float16_array, float32_array, float64_array, int16_array,
  int32_array, int8_array, uint16_array, uint32_array, uint8_array, uint8_clamped_array,
  big_int_object, boolean_object, date, function, map_class, number_object, promise,
  promise_resolver, proxy, reg_exp, set_class, shared_array_buffer, string_object, symbol_object,
  wasm_memory_object, wasm_module_object, primitive, big_int, boolean, name, string_class,
  symbol_class, number, integer, int32, uint32,
}
use rusty_v.Data.Contexts.{
  data_class_impls, accessor_signature_impls, context_impls, fixed_array_impls, message_impls,
  module_class_impls, module_request_impls, primitive_array_impls, private_impls,
}
use rusty_v.Data.Templates.{
  script_impls, script_or_module_impls, signature_impls, stack_frame_impls, stack_trace_impls,
  template_impls, function_template_impls, object_template_impls, unbound_module_script_impls,
  unbound_script_impls,
}
use rusty_v.Data.Objects.{value_impls, external_impls, object_impls, array_impls}
use rusty_v.Data.Buffers.{
  array_buffer_impls, array_buffer_view_impls, data_view_impls, typed_array_impls,
  big_int64_array_impls, big_uint64_array_impls, float16_array_impls, float32_array_impls,
}
use rusty_v.Data.Views.{
  float64_array_impls, int16_array_impls, int32_array_impls, int8_array_impls, uint16_array_impls,
  uint32_array_impls, uint8_array_impls, uint8_clamped_array_impls,
}
use rusty_v.Data.Wrappers.{
  big_int_object_impls, boolean_object_impls, date_impls, function_impls, map_class_impls,
  number_object_impls, promise_impls, promise_resolver_impls,
}
use rusty_v.Data.Others.{
  proxy_impls, reg_exp_impls, set_class_impls, shared_array_buffer_impls, string_object_impls,
  symbol_object_impls, wasm_memory_object_impls, wasm_module_object_impls,
}
use rusty_v.Data.Primitives.{
  primitive_impls, big_int_impls, boolean_impls, name_impls, string_class_impls, symbol_class_impls,
  number_impls, integer_impls, int32_impls, uint32_impls,
}

abbrev pub classes : List Class
classes =
    data_class ∷ accessor_signature ∷ context ∷ fixed_array ∷ message ∷ module_class
    ∷ module_request ∷ primitive_array ∷ private ∷ script ∷ script_or_module ∷ signature
    ∷ stack_frame ∷ stack_trace ∷ template ∷ function_template ∷ object_template
    ∷ unbound_module_script ∷ unbound_script ∷ value ∷ external ∷ object ∷ array ∷ array_buffer
    ∷ array_buffer_view ∷ data_view ∷ typed_array ∷ big_int64_array ∷ big_uint64_array
    ∷ float16_array ∷ float32_array ∷ float64_array ∷ int16_array ∷ int32_array ∷ int8_array
    ∷ uint16_array ∷ uint32_array ∷ uint8_array ∷ uint8_clamped_array ∷ big_int_object
    ∷ boolean_object ∷ date ∷ function ∷ map_class ∷ number_object ∷ promise ∷ promise_resolver
    ∷ proxy ∷ reg_exp ∷ set_class ∷ shared_array_buffer ∷ string_object ∷ symbol_object
    ∷ wasm_memory_object ∷ wasm_module_object ∷ primitive ∷ big_int ∷ boolean ∷ name ∷ string_class
    ∷ symbol_class ∷ number ∷ integer ∷ int32 ∷ uint32 ∷ []

unfoldable pub impls : Class → Impls
unfolding data_class_impls accessor_signature_impls context_impls fixed_array_impls message_impls
    module_class_impls module_request_impls primitive_array_impls private_impls script_impls
    script_or_module_impls signature_impls stack_frame_impls stack_trace_impls template_impls
    function_template_impls object_template_impls unbound_module_script_impls unbound_script_impls
    value_impls external_impls object_impls array_impls array_buffer_impls array_buffer_view_impls
    data_view_impls typed_array_impls big_int64_array_impls big_uint64_array_impls
    float16_array_impls float32_array_impls float64_array_impls int16_array_impls int32_array_impls
    int8_array_impls uint16_array_impls uint32_array_impls uint8_array_impls
    uint8_clamped_array_impls big_int_object_impls boolean_object_impls date_impls function_impls
    map_class_impls number_object_impls promise_impls promise_resolver_impls proxy_impls
    reg_exp_impls set_class_impls shared_array_buffer_impls string_object_impls symbol_object_impls
    wasm_memory_object_impls wasm_module_object_impls primitive_impls big_int_impls boolean_impls
    name_impls string_class_impls symbol_class_impls number_impls integer_impls int32_impls
    uint32_impls
impls data_class = data_class_impls
impls accessor_signature = accessor_signature_impls
impls context = context_impls
impls fixed_array = fixed_array_impls
impls message = message_impls
impls module_class = module_class_impls
impls module_request = module_request_impls
impls primitive_array = primitive_array_impls
impls private = private_impls
impls script = script_impls
impls script_or_module = script_or_module_impls
impls signature = signature_impls
impls stack_frame = stack_frame_impls
impls stack_trace = stack_trace_impls
impls template = template_impls
impls function_template = function_template_impls
impls object_template = object_template_impls
impls unbound_module_script = unbound_module_script_impls
impls unbound_script = unbound_script_impls
impls value = value_impls
impls external = external_impls
impls object = object_impls
impls array = array_impls
impls array_buffer = array_buffer_impls
impls array_buffer_view = array_buffer_view_impls
impls data_view = data_view_impls
impls typed_array = typed_array_impls
impls big_int64_array = big_int64_array_impls
impls big_uint64_array = big_uint64_array_impls
impls float16_array = float16_array_impls
impls float32_array = float32_array_impls
impls float64_array = float64_array_impls
impls int16_array = int16_array_impls
impls int32_array = int32_array_impls
impls int8_array = int8_array_impls
impls uint16_array = uint16_array_impls
impls uint32_array = uint32_array_impls
impls uint8_array = uint8_array_impls
impls uint8_clamped_array = uint8_clamped_array_impls
impls big_int_object = big_int_object_impls
impls boolean_object = boolean_object_impls
impls date = date_impls
impls function = function_impls
impls map_class = map_class_impls
impls number_object = number_object_impls
impls promise = promise_impls
impls promise_resolver = promise_resolver_impls
impls proxy = proxy_impls
impls reg_exp = reg_exp_impls
impls set_class = set_class_impls
impls shared_array_buffer = shared_array_buffer_impls
impls string_object = string_object_impls
impls symbol_object = symbol_object_impls
impls wasm_memory_object = wasm_memory_object_impls
impls wasm_module_object = wasm_module_object_impls
impls primitive = primitive_impls
impls big_int = big_int_impls
impls boolean = boolean_impls
impls name = name_impls
impls string_class = string_class_impls
impls symbol_class = symbol_class_impls
impls number = number_impls
impls integer = integer_impls
impls int32 = int32_impls
impls uint32 = uint32_impls
