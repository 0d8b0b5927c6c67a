-- ===== src/Data/Views.antt =====
-- The trait implementations of src/data.rs for the other typed arrays.
use rusty_v.Base.{true, [], ◌∷◌, some}
use rusty_v.Data.Classes.{
  Impls, array_buffer_view, both, cast_test, data_class, float64_array, get_identity_hash, identity,
  int16_array, int32_array, int8_array, object, test, typed_array, uint16_array, uint32_array,
  uint8_array, uint8_clamped_array, value,
}

unfoldable pub float64_array_impls : Impls
float64_array_impls = record {
  deref = some typed_array;
  try_from =
      (data_class, both (test value) (cast_test value float64_array))
      ∷ (value, test float64_array)
      ∷ (object, test float64_array)
      ∷ (array_buffer_view, test float64_array)
      ∷ (typed_array, test float64_array)
      ∷ [];
  from = [];
  is_eq = true;
  partial_eq =
      (data_class, identity)
      ∷ (value, identity)
      ∷ (object, identity)
      ∷ (array_buffer_view, identity)
      ∷ (typed_array, identity)
      ∷ (float64_array, identity)
      ∷ [];
  hash = some get_identity_hash;
}

unfoldable pub int16_array_impls : Impls
int16_array_impls = record {
  deref = some typed_array;
  try_from =
      (data_class, both (test value) (cast_test value int16_array))
      ∷ (value, test int16_array)
      ∷ (object, test int16_array)
      ∷ (array_buffer_view, test int16_array)
      ∷ (typed_array, test int16_array)
      ∷ [];
  from = [];
  is_eq = true;
  partial_eq =
      (data_class, identity)
      ∷ (value, identity)
      ∷ (object, identity)
      ∷ (array_buffer_view, identity)
      ∷ (typed_array, identity)
      ∷ (int16_array, identity)
      ∷ [];
  hash = some get_identity_hash;
}

unfoldable pub int32_array_impls : Impls
int32_array_impls = record {
  deref = some typed_array;
  try_from =
      (data_class, both (test value) (cast_test value int32_array))
      ∷ (value, test int32_array)
      ∷ (object, test int32_array)
      ∷ (array_buffer_view, test int32_array)
      ∷ (typed_array, test int32_array)
      ∷ [];
  from = [];
  is_eq = true;
  partial_eq =
      (data_class, identity)
      ∷ (value, identity)
      ∷ (object, identity)
      ∷ (array_buffer_view, identity)
      ∷ (typed_array, identity)
      ∷ (int32_array, identity)
      ∷ [];
  hash = some get_identity_hash;
}

unfoldable pub int8_array_impls : Impls
int8_array_impls = record {
  deref = some typed_array;
  try_from =
      (data_class, both (test value) (cast_test value int8_array))
      ∷ (value, test int8_array)
      ∷ (object, test int8_array)
      ∷ (array_buffer_view, test int8_array)
      ∷ (typed_array, test int8_array)
      ∷ [];
  from = [];
  is_eq = true;
  partial_eq =
      (data_class, identity)
      ∷ (value, identity)
      ∷ (object, identity)
      ∷ (array_buffer_view, identity)
      ∷ (typed_array, identity)
      ∷ (int8_array, identity)
      ∷ [];
  hash = some get_identity_hash;
}

unfoldable pub uint16_array_impls : Impls
uint16_array_impls = record {
  deref = some typed_array;
  try_from =
      (data_class, both (test value) (cast_test value uint16_array))
      ∷ (value, test uint16_array)
      ∷ (object, test uint16_array)
      ∷ (array_buffer_view, test uint16_array)
      ∷ (typed_array, test uint16_array)
      ∷ [];
  from = [];
  is_eq = true;
  partial_eq =
      (data_class, identity)
      ∷ (value, identity)
      ∷ (object, identity)
      ∷ (array_buffer_view, identity)
      ∷ (typed_array, identity)
      ∷ (uint16_array, identity)
      ∷ [];
  hash = some get_identity_hash;
}

unfoldable pub uint32_array_impls : Impls
uint32_array_impls = record {
  deref = some typed_array;
  try_from =
      (data_class, both (test value) (cast_test value uint32_array))
      ∷ (value, test uint32_array)
      ∷ (object, test uint32_array)
      ∷ (array_buffer_view, test uint32_array)
      ∷ (typed_array, test uint32_array)
      ∷ [];
  from = [];
  is_eq = true;
  partial_eq =
      (data_class, identity)
      ∷ (value, identity)
      ∷ (object, identity)
      ∷ (array_buffer_view, identity)
      ∷ (typed_array, identity)
      ∷ (uint32_array, identity)
      ∷ [];
  hash = some get_identity_hash;
}

unfoldable pub uint8_array_impls : Impls
uint8_array_impls = record {
  deref = some typed_array;
  try_from =
      (data_class, both (test value) (cast_test value uint8_array))
      ∷ (value, test uint8_array)
      ∷ (object, test uint8_array)
      ∷ (array_buffer_view, test uint8_array)
      ∷ (typed_array, test uint8_array)
      ∷ [];
  from = [];
  is_eq = true;
  partial_eq =
      (data_class, identity)
      ∷ (value, identity)
      ∷ (object, identity)
      ∷ (array_buffer_view, identity)
      ∷ (typed_array, identity)
      ∷ (uint8_array, identity)
      ∷ [];
  hash = some get_identity_hash;
}

unfoldable pub uint8_clamped_array_impls : Impls
uint8_clamped_array_impls = record {
  deref = some typed_array;
  try_from =
      (data_class, both (test value) (cast_test value uint8_clamped_array))
      ∷ (value, test uint8_clamped_array)
      ∷ (object, test uint8_clamped_array)
      ∷ (array_buffer_view, test uint8_clamped_array)
      ∷ (typed_array, test uint8_clamped_array)
      ∷ [];
  from = [];
  is_eq = true;
  partial_eq =
      (data_class, identity)
      ∷ (value, identity)
      ∷ (object, identity)
      ∷ (array_buffer_view, identity)
      ∷ (typed_array, identity)
      ∷ (uint8_clamped_array, identity)
      ∷ [];
  hash = some get_identity_hash;
}
