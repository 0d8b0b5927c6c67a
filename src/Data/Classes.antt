-- ===== src/Data/Classes.antt =====
-- The classes of src/data.rs, and what its macros implement for one of them.
use rusty_v.Base.{ℕ, Bool, List, Option}

pub data Class : Type 0 where
  data_class accessor_signature context fixed_array message module_class module_request : Class
  primitive_array private script script_or_module signature stack_frame stack_trace : Class
  template function_template object_template unbound_module_script unbound_script value : Class
  external object array array_buffer array_buffer_view data_view typed_array : Class
  big_int64_array big_uint64_array float16_array float32_array float64_array : Class
  int16_array int32_array int8_array uint16_array uint32_array uint8_array : Class
  uint8_clamped_array big_int_object boolean_object date function map_class : Class
  number_object promise promise_resolver proxy reg_exp set_class shared_array_buffer : Class
  string_object symbol_object wasm_memory_object wasm_module_object primitive big_int : Class
  boolean name string_class symbol_class number integer int32 uint32 : Class

-- The `$check` of an `impl_try_from!`: a predicate `is_…` of the value, or of `cast::<T>(v)`.
pub data Check : Type 0 where
  test : Class → Check
  cast_test : Class → Class → Check
  both either : Check → Check → Check

pub data Comparison : Type 0 where
  identity strict_equals same_value_zero : Comparison

pub data HashMethod : Type 0 where
  get_hash get_identity_hash : HashMethod

-- The macros that name one class as their target: `impl_deref!` (to which class), `impl_try_from!`
-- (from which, under which check), `impl_from!` (from which), `impl_eq!`, `impl_partial_eq!` (with
-- which, by which comparison) and `impl_hash!`.
pub record Impls : Type 0 where
  pub deref : Option Class
  pub try_from : List (Class × Check)
  pub from : List Class
  pub is_eq : Bool
  pub partial_eq : List (Class × Comparison)
  pub hash : Option HashMethod

-- The number of a class, by its place in the file.
abbrev pub index : Class → ℕ
index data_class = 0
index accessor_signature = 1
index context = 2
index fixed_array = 3
index message = 4
index module_class = 5
index module_request = 6
index primitive_array = 7
index private = 8
index script = 9
index script_or_module = 10
index signature = 11
index stack_frame = 12
index stack_trace = 13
index template = 14
index function_template = 15
index object_template = 16
index unbound_module_script = 17
index unbound_script = 18
index value = 19
index external = 20
index object = 21
index array = 22
index array_buffer = 23
index array_buffer_view = 24
index data_view = 25
index typed_array = 26
index big_int64_array = 27
index big_uint64_array = 28
index float16_array = 29
index float32_array = 30
index float64_array = 31
index int16_array = 32
index int32_array = 33
index int8_array = 34
index uint16_array = 35
index uint32_array = 36
index uint8_array = 37
index uint8_clamped_array = 38
index big_int_object = 39
index boolean_object = 40
index date = 41
index function = 42
index map_class = 43
index number_object = 44
index promise = 45
index promise_resolver = 46
index proxy = 47
index reg_exp = 48
index set_class = 49
index shared_array_buffer = 50
index string_object = 51
index symbol_object = 52
index wasm_memory_object = 53
index wasm_module_object = 54
index primitive = 55
index big_int = 56
index boolean = 57
index name = 58
index string_class = 59
index symbol_class = 60
index number = 61
index integer = 62
index int32 = 63
index uint32 = 64
