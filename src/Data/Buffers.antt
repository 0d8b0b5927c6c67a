-- ===== src/Data/Buffers.antt =====
-- The trait implementations of src/data.rs for array buffers and the first of their views.
use rusty_v.Base.{true, [], ◌∷◌, some}
use rusty_v.Data.Classes.{
  Impls, array_buffer, array_buffer_view, big_int64_array, big_uint64_array, both, cast_test,
  data_class, data_view, float16_array, float32_array, float64_array, get_identity_hash, identity,
  int16_array, int32_array, int8_array, object, test, typed_array, uint16_array, uint32_array,
  uint8_array, uint8_clamped_array, value,
}

unfoldable pub array_buffer_impls : Impls
array_buffer_impls = record {
  deref = some object;
  try_from =
      (data_class, both (test value) (cast_test value array_buffer))
      ∷ (value, test array_buffer)
      ∷ (object, test array_buffer)
      ∷ [];
  from = [];
  is_eq = true;
  partial_eq =
      (data_class, identity)
      ∷ (value, identity)
      ∷ (object, identity)
      ∷ (array_buffer, identity)
      ∷ [];
  hash = some get_identity_hash;
}

unfoldable pub array_buffer_view_impls : Impls
array_buffer_view_impls = record {
  deref = some object;
  try_from =
      (data_class, both (test value) (cast_test value array_buffer_view))
      ∷ (value, test array_buffer_view)
      ∷ (object, test array_buffer_view)
      ∷ [];
  from =
      data_view ∷ typed_array ∷ big_int64_array ∷ big_uint64_array ∷ float32_array ∷ float64_array
      ∷ int16_array ∷ int32_array ∷ int8_array ∷ uint16_array ∷ uint32_array ∷ uint8_array
      ∷ uint8_clamped_array ∷ [];
  is_eq = true;
  partial_eq =
      (data_class, identity)
      ∷ (value, identity)
      ∷ (object, identity)
      ∷ (array_buffer_view, identity)
      ∷ (data_view, identity)
      ∷ (typed_array, identity)
      ∷ (big_int64_array, identity)
      ∷ (big_uint64_array, identity)
      ∷ (float32_array, identity)
      ∷ (float64_array, identity)
      ∷ (int16_array, identity)
      ∷ (int32_array, identity)
      ∷ (int8_array, identity)
      ∷ (uint16_array, identity)
      ∷ (uint32_array, identity)
      ∷ (uint8_array, identity)
      ∷ (uint8_clamped_array, identity)
      ∷ [];
  hash = some get_identity_hash;
}

unfoldable pub data_view_impls : Impls
data_view_impls = record {
  deref = some array_buffer_view;
  try_from =
      (data_class, both (test value) (cast_test value data_view))
      ∷ (value, test data_view)
      ∷ (object, test data_view)
      ∷ (array_buffer_view, test data_view)
      ∷ [];
  from = [];
  is_eq = true;
  partial_eq =
      (data_class, identity)
      ∷ (value, identity)
      ∷ (object, identity)
      ∷ (array_buffer_view, identity)
      ∷ (data_view, identity)
      ∷ [];
  hash = some get_identity_hash;
}

unfoldable pub typed_array_impls : Impls
typed_array_impls = record {
  deref = some array_buffer_view;
  try_from =
      (data_class, both (test value) (cast_test value typed_array))
      ∷ (value, test typed_array)
      ∷ (object, test typed_array)
      ∷ (array_buffer_view, test typed_array)
      ∷ [];
  from =
      big_int64_array ∷ big_uint64_array ∷ float32_array ∷ float64_array ∷ int16_array ∷ int32_array
      ∷ int8_array ∷ uint16_array ∷ uint32_array ∷ uint8_array ∷ uint8_clamped_array ∷ [];
  is_eq = true;
  partial_eq =
      (data_class, identity)
      ∷ (value, identity)
      ∷ (object, identity)
      ∷ (array_buffer_view, identity)
      ∷ (typed_array, identity)
      ∷ (big_int64_array, identity)
      ∷ (big_uint64_array, identity)
      ∷ (float32_array, identity)
      ∷ (float64_array, identity)
      ∷ (int16_array, identity)
      ∷ (int32_array, identity)
      ∷ (int8_array, identity)
      ∷ (uint16_array, identity)
      ∷ (uint32_array, identity)
      ∷ (uint8_array, identity)
      ∷ (uint8_clamped_array, identity)
      ∷ [];
  hash = some get_identity_hash;
}

unfoldable pub big_int64_array_impls : Impls
big_int64_array_impls = record {
  deref = some typed_array;
  try_from =
      (data_class, both (test value) (cast_test value big_int64_array))
      ∷ (value, test big_int64_array)
      ∷ (object, test big_int64_array)
      ∷ (array_buffer_view, test big_int64_array)
      ∷ (typed_array, test big_int64_array)
      ∷ [];
  from = [];
  is_eq = true;
  partial_eq =
      (data_class, identity)
      ∷ (value, identity)
      ∷ (object, identity)
      ∷ (array_buffer_view, identity)
      ∷ (typed_array, identity)
      ∷ (big_int64_array, identity)
      ∷ [];
  hash = some get_identity_hash;
}

unfoldable pub big_uint64_array_impls : Impls
big_uint64_array_impls = record {
  deref = some typed_array;
  try_from =
      (data_class, both (test value) (cast_test value big_uint64_array))
      ∷ (value, test big_uint64_array)
      ∷ (object, test big_uint64_array)
      ∷ (array_buffer_view, test big_uint64_array)
      ∷ (typed_array, test big_uint64_array)
      ∷ [];
  from = [];
  is_eq = true;
  partial_eq =
      (data_class, identity)
      ∷ (value, identity)
      ∷ (object, identity)
      ∷ (array_buffer_view, identity)
      ∷ (typed_array, identity)
      ∷ (big_uint64_array, identity)
      ∷ [];
  hash = some get_identity_hash;
}

unfoldable pub float16_array_impls : Impls
float16_array_impls = record {
  deref = some typed_array;
  try_from =
      (data_class, both (test value) (cast_test value float16_array))
      ∷ (value, test float16_array)
      ∷ (object, test float16_array)
      ∷ (array_buffer_view, test float16_array)
      ∷ (typed_array, test float16_array)
      ∷ [];
  from = [];
  is_eq = true;
  partial_eq =
      (data_class, identity)
      ∷ (value, identity)
      ∷ (object, identity)
      ∷ (array_buffer_view, identity)
      ∷ (typed_array, identity)
      ∷ (float16_array, identity)
      ∷ [];
  hash = some get_identity_hash;
}

unfoldable pub float32_array_impls : Impls
float32_array_impls = record {
  deref = some typed_array;
  try_from =
      (data_class, both (test value) (cast_test value float32_array))
      ∷ (value, test float32_array)
      ∷ (object, test float32_array)
      ∷ (array_buffer_view, test float32_array)
      ∷ (typed_array, test float32_array)
      ∷ [];
  from = [];
  is_eq = true;
  partial_eq =
      (data_class, identity)
      ∷ (value, identity)
      ∷ (object, identity)
      ∷ (array_buffer_view, identity)
      ∷ (typed_array, identity)
      ∷ (float32_array, identity)
      ∷ [];
  hash = some get_identity_hash;
}
