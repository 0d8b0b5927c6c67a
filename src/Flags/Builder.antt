-- ===== src/Flags/Builder.antt =====
-- `GetPropertyNamesArgs` and its builder (src/get_property_names_args_builder.rs).
use rusty_v.Base.{ℕ, ◌≡◌, refl, List, [], ◌∷◌}
use rusty_v.Flags.{bitor}
use rusty_v.Flags.Filter.{only_enumerable, skip_symbols}

pub data KeyConversionMode : Type 0 where
  convert_to_string keep_numbers no_numbers : KeyConversionMode

pub data KeyCollectionMode : Type 0 where
  own_only include_prototypes : KeyCollectionMode

pub data IndexFilter : Type 0 where
  include_indices skip_indices : IndexFilter

pub record GetPropertyNamesArgs : Type 0 where
  pub mode : KeyCollectionMode
  pub property_filter : ℕ
  pub index_filter : IndexFilter
  pub key_conversion : KeyConversionMode

-- `GetPropertyNamesArgs::default`.
unfoldable pub default_args : GetPropertyNamesArgs
unfolding bitor
default_args = record {
  mode = include_prototypes;
  property_filter = bitor only_enumerable skip_symbols;
  index_filter = include_indices;
  key_conversion = keep_numbers;
}

pub record GetPropertyNamesArgsBuilder : Type 0 where
  pub mode : KeyCollectionMode
  pub property_filter : ℕ
  pub index_filter : IndexFilter
  pub key_conversion : KeyConversionMode

unfoldable pub new_builder : GetPropertyNamesArgsBuilder
unfolding bitor
new_builder = record {
  mode = include_prototypes;
  property_filter = bitor only_enumerable skip_symbols;
  index_filter = include_indices;
  key_conversion = keep_numbers;
}

unfoldable pub build : GetPropertyNamesArgsBuilder → GetPropertyNamesArgs
build b = record {
  mode = b.mode;
  property_filter = b.property_filter;
  index_filter = b.index_filter;
  key_conversion = b.key_conversion;
}

-- A call of one of the four setters.
pub data Setter : Type 0 where
  set_mode : KeyCollectionMode → Setter
  set_property_filter : ℕ → Setter
  set_index_filter : IndexFilter → Setter
  set_key_conversion : KeyConversionMode → Setter

unfoldable pub set_one : Setter → GetPropertyNamesArgsBuilder → GetPropertyNamesArgsBuilder
set_one (set_mode m) b = record b { mode = m }
set_one (set_property_filter f) b = record b { property_filter = f }
set_one (set_index_filter f) b = record b { index_filter = f }
set_one (set_key_conversion k) b = record b { key_conversion = k }

-- A chain of calls, as `&mut Self` makes them.
unfoldable pub set_each : List Setter → GetPropertyNamesArgsBuilder → GetPropertyNamesArgsBuilder
set_each [] b = b
set_each (s ∷ ss) b = set_each ss (set_one s b)

-- The value that the last call for a field gives it, or else the one it has.
abbrev pub last_mode : List Setter → KeyCollectionMode → KeyCollectionMode
last_mode [] old = old
last_mode (set_mode m ∷ ss) old = last_mode ss m
last_mode (s ∷ ss) old = last_mode ss old

abbrev pub last_property_filter : List Setter → ℕ → ℕ
last_property_filter [] old = old
last_property_filter (set_property_filter f ∷ ss) old = last_property_filter ss f
last_property_filter (s ∷ ss) old = last_property_filter ss old

abbrev pub last_index_filter : List Setter → IndexFilter → IndexFilter
last_index_filter [] old = old
last_index_filter (set_index_filter f ∷ ss) old = last_index_filter ss f
last_index_filter (s ∷ ss) old = last_index_filter ss old

abbrev pub last_key_conversion : List Setter → KeyConversionMode → KeyConversionMode
last_key_conversion [] old = old
last_key_conversion (set_key_conversion k ∷ ss) old = last_key_conversion ss k
last_key_conversion (s ∷ ss) old = last_key_conversion ss old

build-set_each :
    (ss : List Setter) (b : GetPropertyNamesArgsBuilder)
    → build (set_each ss b) ≡ record {
      mode = last_mode ss b.mode;
      property_filter = last_property_filter ss b.property_filter;
      index_filter = last_index_filter ss b.index_filter;
      key_conversion = last_key_conversion ss b.key_conversion;
    }
unfolding build set_each set_one
build-set_each [] b = refl
build-set_each (set_mode m ∷ ss) b = build-set_each ss (record b { mode = m })
build-set_each (set_property_filter f ∷ ss) b = build-set_each ss (record b { property_filter = f })
build-set_each (set_index_filter f ∷ ss) b = build-set_each ss (record b { index_filter = f })
build-set_each (set_key_conversion k ∷ ss) b = build-set_each ss (record b { key_conversion = k })

-- Whatever setters are called on a new builder and in whatever order, it builds the arguments in which
-- each field is what the last call for it gave, and what the default arguments have where there was
-- no such call.
pub build-set_each_new :
    (ss : List Setter)
    → build (set_each ss new_builder) ≡ record {
      mode = last_mode ss default_args.mode;
      property_filter = last_property_filter ss default_args.property_filter;
      index_filter = last_index_filter ss default_args.index_filter;
      key_conversion = last_key_conversion ss default_args.key_conversion;
    }
unfolding new_builder default_args
build-set_each_new ss = build-set_each ss new_builder
