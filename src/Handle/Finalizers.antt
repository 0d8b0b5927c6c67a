-- ===== src/Handle/Finalizers.antt =====
-- `FinalizerMap` (src/handle.rs) and the draining of it when an isolate is torn down
-- (src/isolate.rs).
--
-- The hash map is a list of entries with one entry for a key. A callback is known by a number. The
-- counter is a `usize`, which wraps around at 2^64 in a release build.
pub mod Entries
use rusty_v.Base.{
  ℕ, zero, suc, ◌+◌, ◌%◌, Bool, true, false, if◌then◌else◌, ◌==◌, List, [], ◌∷◌, ◌++◌, Option, none,
  some,
}

pub data FinalizerCallback : Type 0 where
  regular guaranteed : ℕ → FinalizerCallback

pub record FinalizerMap : Type 0 where
  pub map : List (ℕ × FinalizerCallback)
  pub next_id : ℕ

abbrev pub usize_values : ℕ
usize_values = 18446744073709551616

-- `FinalizerMap::default()`.
abbrev pub empty_map : FinalizerMap
empty_map = record { map = []; next_id = 0 }

-- `HashMap::get`, `HashMap::remove` without its answer, and `HashMap::insert`.
unfoldable pub lookup : ℕ → List (ℕ × FinalizerCallback) → Option FinalizerCallback
lookup k [] = none
lookup k ((i, c) ∷ es) = if k == i then some c else lookup k es

unfoldable pub erase : ℕ → List (ℕ × FinalizerCallback) → List (ℕ × FinalizerCallback)
erase k [] = []
erase k ((i, c) ∷ es) = let rest = erase k es in if k == i then rest else ((i, c) ∷ rest)

unfoldable pub insert :
    ℕ → FinalizerCallback → List (ℕ × FinalizerCallback) → List (ℕ × FinalizerCallback)
insert k c es = (k, c) ∷ erase k es

unfoldable pub add : FinalizerCallback → FinalizerMap → ℕ × FinalizerMap
add finalizer m =
    let id = m.next_id in
    (id, record { map = insert id finalizer m.map; next_id = (id + 1) % usize_values })

unfoldable pub remove : ℕ → FinalizerMap → Option FinalizerCallback × FinalizerMap
remove id m = (lookup id m.map, record m { map = erase id m.map })

unfoldable pub drain : FinalizerMap → List FinalizerCallback
drain m = callbacks m.map
  where
    callbacks : List (ℕ × FinalizerCallback) → List FinalizerCallback
    callbacks [] = []
    callbacks ((i, c) ∷ es) = c ∷ callbacks es

-- The loop of `run_remaining_guaranteed_finalizers`: the callbacks that it calls.
unfoldable pub guaranteed_of : List FinalizerCallback → List ℕ
guaranteed_of [] = []
guaranteed_of (regular k ∷ cs) = guaranteed_of cs
guaranteed_of (guaranteed k ∷ cs) = k ∷ guaranteed_of cs

unfoldable pub run_remaining_guaranteed_finalizers : FinalizerMap → List ℕ × FinalizerMap
run_remaining_guaranteed_finalizers m = (guaranteed_of (drain m), empty_map)
