-- ===== src/Context.antt =====
-- The slots and the embedder data of a context (src/context.rs).
--
-- A `ContextAnnex` is a box at an address; its slots are a map from types to `Rc`s, each known by a
-- number, and the `RawSlot`s of such a map are modelled in Isolate/Slots. The embedder data of V8 and the
-- allocator are parameters. An index is the `u32` of its `i32`, whose sum wraps around in a release
-- build. `none` for a result is a panic, or a use of memory that is not a box.
pub mod Promise
pub mod Steps
pub mod Life
pub mod EmbedderData
mod Tests
use rusty_v.Base.{
  ℕ, ◌+◌, ◌%◌, ◌<◌, ◌≡◌, ◌≢◌, Bool, true, false, not, if◌then◌else◌, ◌==◌, ltb, List, [], ◌∷◌, ◌++◌,
  Option, none, some, ◌>>=◌, ◌>>◌, assert,
}
use rusty_v.Handle.Finalizers.{
  FinalizerCallback, guaranteed, regular, FinalizerMap, add, remove,
  run_remaining_guaranteed_finalizers,
}
use rusty_v.Isolate.Slots.{get, delete}

-- What V8 does with the embedder data of a context: the number of fields, the number that it can make room
-- for, and the reads and writes of pointers and of values; a pointer is a number, and 0 is null.
pub record FieldStore : Type 1 where
  pub State : Type 0
  pub count : State → ℕ
  pub limit : ℕ
  pub get_pointer : State → ℕ → ℕ
  pub set_pointer : State → ℕ → ℕ → State
  pub get_value : State → ℕ → ℕ
  pub set_value : State → ℕ → ℕ → State

-- `ContextAnnex`: the slots, and the finalizer of `self_weak`, which is none of an empty handle.
pub record ContextAnnex : Type 0 where
  pub slots : List (ℕ × ℕ)
  pub self_weak : Option ℕ

unfoldable pub annex_at : ℕ → List (ℕ × ContextAnnex) → Option ContextAnnex
annex_at a [] = none
annex_at a ((b, x) ∷ rest) = if a == b then some x else annex_at a rest

unfoldable pub without_annex : ℕ → List (ℕ × ContextAnnex) → List (ℕ × ContextAnnex)
without_annex a [] = []
without_annex a ((b, x) ∷ rest) = if a == b then rest else (b, x) ∷ without_annex a rest

unfoldable pub with_annex : ℕ → ContextAnnex → List (ℕ × ContextAnnex) → List (ℕ × ContextAnnex)
with_annex a y [] = []
with_annex a y ((b, x) ∷ rest) = if a == b then (b, y) ∷ rest else (b, x) ∷ with_annex a y rest

abbrev pub context_annex_slot : ℕ
context_annex_slot = 1

abbrev pub internal_slot_count : ℕ
internal_slot_count = 2

abbrev pub i32_values : ℕ
i32_values = 4294967296

-- The field of the embedder's slot.
abbrev pub field_of : ℕ → ℕ
field_of slot = (slot + internal_slot_count) % i32_values

abbrev pub slot_values : List (ℕ × ℕ) → List ℕ
slot_values [] = []
slot_values ((t, v) ∷ rest) = v ∷ slot_values rest

module _ (d : FieldStore) (allocate : List (ℕ × ContextAnnex) → ℕ) where
  -- A context with the boxes that are allocated for it, the finalizers of its isolate, and the `Rc`s
  -- that were dropped with a box.
  pub record ContextState : Type 0 where
    pub fields : d.State
    pub annexes : List (ℕ × ContextAnnex)
    pub finalizers : FinalizerMap
    pub released : List ℕ

  -- The pointer that `get_annex_mut` reads, where there is a field for it.
  unfoldable pub annex_pointer : d.State → ℕ
  annex_pointer fields =
      if ltb context_annex_slot (d.count fields) then d.get_pointer fields context_annex_slot else 0

  unfoldable pub create_context_annex : ContextState → Option (Option ℕ × ContextState)
  unfolding with_annex
  create_context_annex w =
      let annex_ptr = allocate w.annexes in
      let annexes = (annex_ptr, record { slots = []; self_weak = none }) ∷ w.annexes in
      let fields = d.set_pointer w.fields context_annex_slot annex_ptr in
      let (weak, finalizers) = add (guaranteed annex_ptr) w.finalizers in
      do
        assert (ltb context_annex_slot (d.count fields))
        some (
          some annex_ptr,
          record {
            fields = fields;
            annexes = with_annex annex_ptr (record { slots = []; self_weak = some weak }) annexes;
            finalizers = finalizers;
            released = w.released;
          },
        )

  -- The address of the annex, if there is one or one is to be made.
  unfoldable pub get_annex_mut : Bool → ContextState → Option (Option ℕ × ContextState)
  unfolding annex_pointer create_context_annex
  get_annex_mut create_if_not_present w =
      if not (annex_pointer w.fields == 0)
      then some (some (annex_pointer w.fields), w)
      else (if not create_if_not_present then some (none, w) else create_context_annex w)

  -- `Box::from_raw` and the drop of the box: its slots are dropped, and `self_weak`, whose finalizer
  -- is removed.
  unfoldable pub drop_annex : ℕ → ContextState → Option ContextState
  unfolding annex_at without_annex
  drop_annex a w = do
    x ← annex_at a w.annexes
    some (record {
      fields = w.fields;
      annexes = without_annex a w.annexes;
      finalizers = elim x.self_weak [ none ↦ w.finalizers | some id ↦ (remove id w.finalizers).1 ];
      released = w.released ++ slot_values x.slots;
    })

  -- The slots of the annex at an address are read, and replaced.
  unfoldable pub put_slots : ℕ → ContextAnnex → List (ℕ × ℕ) → ContextState → ContextState
  unfolding with_annex
  put_slots a x slots w = record w { annexes = with_annex a (record x { slots = slots }) w.annexes }

  unfoldable pub get_slot_in : ℕ → Option ℕ → ContextState → Option (Option ℕ × ContextState)
  unfolding annex_at
  get_slot_in t none w = some (none, w)
  get_slot_in t (some a) w = do x ← annex_at a w.annexes; some (get t x.slots, w)

  unfoldable pub context_get_slot : ℕ → ContextState → Option (Option ℕ × ContextState)
  unfolding get_annex_mut get_slot_in
  context_get_slot t w = do found ← get_annex_mut false w; get_slot_in t found.0 found.1

  unfoldable pub set_slot_in : ℕ → ℕ → Option ℕ → ContextState → Option (Option ℕ × ContextState)
  unfolding annex_at put_slots
  set_slot_in t v none w = none
  set_slot_in t v (some a) w = do
    x ← annex_at a w.annexes
    some (get t x.slots, put_slots a x ((t, v) ∷ delete t x.slots) w)

  unfoldable pub context_set_slot : ℕ → ℕ → ContextState → Option (Option ℕ × ContextState)
  unfolding get_annex_mut set_slot_in
  context_set_slot t v w = do found ← get_annex_mut true w; set_slot_in t v found.0 found.1

  unfoldable pub remove_slot_in : ℕ → Option ℕ → ContextState → Option (Option ℕ × ContextState)
  unfolding annex_at put_slots
  remove_slot_in t none w = some (none, w)
  remove_slot_in t (some a) w = do
    x ← annex_at a w.annexes
    some (get t x.slots, put_slots a x (delete t x.slots) w)

  unfoldable pub context_remove_slot : ℕ → ContextState → Option (Option ℕ × ContextState)
  unfolding get_annex_mut remove_slot_in
  context_remove_slot t w = do found ← get_annex_mut false w; remove_slot_in t found.0 found.1

  unfoldable pub clear_in : Option ℕ → ContextState → Option ContextState
  unfolding drop_annex
  clear_in none w = some w
  clear_in (some a) w = do
    dropped ← drop_annex a w
    some (record dropped { fields = d.set_pointer dropped.fields context_annex_slot 0 })

  unfoldable pub clear_all_slots : ContextState → Option ContextState
  unfolding get_annex_mut clear_in
  clear_all_slots w = do found ← get_annex_mut false w; clear_in found.0 found.1

  unfoldable pub set_embedder_data : ℕ → ℕ → ContextState → Option ContextState
  unfolding get_annex_mut
  set_embedder_data slot v w = do
    found ← get_annex_mut true w
    some (record (found.1) { fields = d.set_value found.1.fields (field_of slot) v })

  unfoldable pub get_embedder_data : ℕ → ContextState → ℕ
  get_embedder_data slot w = d.get_value w.fields (field_of slot)

  unfoldable pub set_aligned_pointer_in_embedder_data : ℕ → ℕ → ContextState → Option ContextState
  unfolding get_annex_mut
  set_aligned_pointer_in_embedder_data slot p w = do
    found ← get_annex_mut true w
    some (record (found.1) { fields = d.set_pointer found.1.fields (field_of slot) p })

  unfoldable pub get_aligned_pointer_from_embedder_data : ℕ → ContextState → ℕ
  get_aligned_pointer_from_embedder_data slot w = d.get_pointer w.fields (field_of slot)

  -- V8 collects a context: the second pass of a weak handle, which runs its finalizer if the map has
  -- it still. The finalizer of `self_weak` drops the box.
  unfoldable pub run_finalizer : Option FinalizerCallback → ContextState → Option ContextState
  unfolding drop_annex
  run_finalizer none w = some w
  run_finalizer (some (regular a)) w = drop_annex a w
  run_finalizer (some (guaranteed a)) w = drop_annex a w

  unfoldable pub second_pass : ℕ → ContextState → Option ContextState
  unfolding run_finalizer
  second_pass id w =
      let (finalizer, finalizers) = remove id w.finalizers in
      run_finalizer finalizer (record w { finalizers = finalizers })

  unfoldable pub drop_each : List ℕ → ContextState → Option ContextState
  unfolding drop_annex
  drop_each [] w = some w
  drop_each (a ∷ rest) w = do dropped ← drop_annex a w; drop_each rest dropped

  -- The isolate is torn down.
  unfoldable pub teardown : ContextState → Option ContextState
  unfolding drop_each
  teardown w =
      let (annexes, finalizers) = run_remaining_guaranteed_finalizers w.finalizers in
      drop_each annexes (record w { finalizers = finalizers })
