-- ===== src/Handle/Weak.antt =====
-- `Weak` (src/handle.rs): one weak handle, the `WeakData` that it shares with V8, and the finalizer
-- map that it shares with the other handles of its isolate.
--
-- `none` is a step that must not happen: a use of a freed `WeakData`, a second free of it, a reset of
-- a V8 handle that is gone, or a panic. The value itself is not modelled, so `pointer` is only
-- whether there is one.
pub mod Phases
pub mod Lifetime
pub mod Finalization
use rusty_v.Base.{
  ℕ, Bool, true, false, if◌then◌else◌, ◌==◌, List, [], ◌∷◌, ◌++◌, Option, none, some, ◌>>=◌, ◌>>◌,
  assert,
}
use rusty_v.Handle.Finalizers.{
  FinalizerCallback, FinalizerMap, lookup, add, remove, run_remaining_guaranteed_finalizers,
}

-- Who has the box: a `Weak`, the caller of `into_raw`, or no one outside V8.
pub data Holder : Type 0 where
  held as_raw gone : Holder

pub record WeakState : Type 0 where
  -- The isolate: the pointer in its `IsolateHandle` is not null, and the map of its annex.
  pub isolate_ptr : Bool
  pub finalizers : FinalizerMap
  -- `WeakData`, and whether its box has been freed.
  pub pointer : Bool
  pub finalizer_id : Option ℕ
  pub weak_dropped : Bool
  pub freed : Bool
  pub weak : Holder
  -- V8: the handle has not been reset, and the second pass callback is to be called.
  pub armed : Bool
  pub pending : Bool
  -- The finalizers that the second pass has called.
  pub ran : List FinalizerCallback

-- `new_raw`.
unfoldable pub new_raw : Bool → Option ℕ → FinalizerMap → WeakState
new_raw alive id m = record {
  isolate_ptr = alive;
  finalizers = m;
  pointer = true;
  finalizer_id = id;
  weak_dropped = false;
  freed = false;
  weak = held;
  armed = true;
  pending = false;
  ran = [];
}

-- `with_finalizer` and `with_guaranteed_finalizer`; `new` with no finalizer. The isolate is at hand,
-- so its handle is not null.
unfoldable pub create : Option FinalizerCallback → FinalizerMap → WeakState
unfolding new_raw
create none m = new_raw true none m
create (some c) m = let (id, m') = add c m in new_raw true (some id) m'

-- `empty`: no data.
unfoldable pub empty : Bool → FinalizerMap → WeakState
empty alive m = record {
  isolate_ptr = alive;
  finalizers = m;
  pointer = false;
  finalizer_id = none;
  weak_dropped = false;
  freed = true;
  weak = gone;
  armed = false;
  pending = false;
  ran = [];
}

-- `get_pointer` of a `Weak` that has its data.
unfoldable pub get_pointer : WeakState → Bool
get_pointer s = if s.isolate_ptr then s.pointer else false

-- `clone_raw`: the clone.
unfoldable pub clone_raw : Option FinalizerCallback → WeakState → Option WeakState
unfolding get_pointer new_raw empty
clone_raw finalizer s =
    if get_pointer s
    then (if s.isolate_ptr then some (create_in finalizer s.finalizers) else none)
    else some (empty s.isolate_ptr s.finalizers)
  where
    create_in : Option FinalizerCallback → FinalizerMap → WeakState
    create_in none m = new_raw s.isolate_ptr none m
    create_in (some c) m = let (id, m') = add c m in new_raw s.isolate_ptr (some id) m'

unfoldable pub is_some : Option FinalizerCallback → Bool
is_some none = false
is_some (some c) = true

-- `v8__Global__Reset`, and `drop` of the box.
unfoldable pub reset : WeakState → Option WeakState
reset s = if s.armed then some (record s { armed = false }) else none

unfoldable pub free : WeakState → Option WeakState
free s = if s.freed then none else some (record s { freed = true })

-- The closure `remove_finalizer` of `drop`.
unfoldable pub remove_finalizer : Option ℕ → WeakState → Bool × WeakState
remove_finalizer none s = (false, s)
remove_finalizer (some id) s =
    if s.isolate_ptr
    then (let (c, m) = remove id s.finalizers in (is_some c, record s { finalizers = m }))
    else (false, s)

-- `drop`, with the drop of the field `data` that follows it.
unfoldable pub drop_weak : WeakState → Option WeakState
unfolding get_pointer reset free remove_finalizer
drop_weak s =
    if get_pointer s
    then (do s' ← reset s; free (record (remove_finalizer s'.finalizer_id s').1 { weak = gone }))
    else (let (existed, s') = remove_finalizer s.finalizer_id s in
        if existed
        then some (record s' { weak_dropped = true; weak = gone })
        else free (record s' { weak = gone }))

-- `contains_key` under the tests of `into_raw`.
unfoldable pub has_finalizer : Option ℕ → WeakState → Bool
has_finalizer none s = false
has_finalizer (some id) s = if s.isolate_ptr then is_some (lookup id s.finalizers.map) else false

unfoldable pub into_raw : WeakState → Option WeakState
unfolding has_finalizer free
into_raw s =
    if s.pointer
    then to_pointer
    else (if has_finalizer s.finalizer_id s then to_pointer else free (record s { weak = gone }))
  where
    to_pointer : Option WeakState
    to_pointer = if s.weak_dropped then none else some (record s { weak = as_raw })

-- `from_raw` of what `into_raw` gave.
unfoldable pub from_raw : WeakState → Option WeakState
from_raw s = some (record s { weak = held })

-- `first_pass_callback`: V8 calls it for a handle that is not reset.
unfoldable pub first_pass_callback : WeakState → Option WeakState
unfolding reset
first_pass_callback s =
    if s.freed
    then none
    else (if s.pointer
        then (do
          s' ← reset (record s { pointer = false })
          some (set_second_pass s'.finalizer_id s'))
        else none)
  where
    set_second_pass : Option ℕ → WeakState → WeakState
    set_second_pass none t = t
    set_second_pass (some id) t = record t { pending = true }

-- `second_pass_callback`: V8 calls it once.
unfoldable pub second_pass_callback : WeakState → Option WeakState
unfolding free
second_pass_callback s = if s.freed then none else with_id s.finalizer_id
  where
    call_finalizer : Option FinalizerCallback → WeakState → WeakState
    call_finalizer none t = t
    call_finalizer (some c) t = record t { ran = t.ran ++ (c ∷ []) }

    with_id : Option ℕ → Option WeakState
    with_id none = none
    with_id (some id) =
        let (finalizer, m) = remove id s.finalizers in
        do
          let s' = record s { finalizers = m; pending = false }
          s'' ← if s'.weak_dropped then free s' else some s'
          some (call_finalizer finalizer s'')

pub data Event : Type 0 where
  -- The owner of the handle.
  weak_drop weak_into_raw weak_from_raw : Event
  -- V8.
  first_pass second_pass : Event
  -- Another handle adds a finalizer, or removes its own; the isolate's teardown.
  other_add : FinalizerCallback → Event
  other_remove : ℕ → Event
  dispose_handle drain_finalizers : Event

unfoldable pub is_held : Holder → Bool
is_held held = true
is_held _ = false

unfoldable pub is_raw : Holder → Bool
is_raw as_raw = true
is_raw _ = false

unfoldable pub owns : Option ℕ → ℕ → Bool
owns none k = false
owns (some id) k = id == k

-- One event. What ownership, or V8's side, rules out in a state leaves it as it is.
unfoldable pub step : Event → WeakState → Option WeakState
step weak_drop s = if is_held s.weak then drop_weak s else some s
step weak_into_raw s = if is_held s.weak then into_raw s else some s
step weak_from_raw s = if is_raw s.weak then from_raw s else some s
step first_pass s = if s.armed then first_pass_callback s else some s
step second_pass s = if s.pending then second_pass_callback s else some s
step (other_add c) s = some (record s { finalizers = (add c s.finalizers).1 })
step (other_remove k) s =
    if owns s.finalizer_id k
    then some s
    else some (record s { finalizers = (remove k s.finalizers).1 })
step dispose_handle s = some (record s { isolate_ptr = false })
step drain_finalizers s =
    some (record s { finalizers = (run_remaining_guaranteed_finalizers s.finalizers).1 })

unfoldable pub run : List Event → WeakState → Option WeakState
run [] s = some s
run (e ∷ es) s = do s' ← step e s; run es s'
