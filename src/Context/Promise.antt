-- ===== src/Context/Promise.antt =====
-- What a context promises of its slots: a map from types to values, empty at first, whose values are
-- released when the slots are cleared, or at the end of the context.
use rusty_v.Base.{ℕ, ◌%◌, ◌<◌, ◌≡◌, ◌≢◌, List, [], ◌∷◌, ◌++◌, Option, none, some, ◌>>=◌}
use rusty_v.Isolate.Slots.{get, delete}
use rusty_v.Isolate.Slots.Reference.{Store}
use rusty_v.Context.{
  FieldStore, ContextAnnex, ContextState, slot_values, context_get_slot, context_set_slot,
  context_remove_slot, clear_all_slots, set_embedder_data, set_aligned_pointer_in_embedder_data,
  field_of, context_annex_slot, second_pass, teardown,
}

pub data ContextOp : Type 0 where
  get_context_slot : ℕ → ContextOp
  set_context_slot : ℕ → ℕ → ContextOp
  remove_context_slot : ℕ → ContextOp
  clear_context_slots : ContextOp
  set_data_value set_data_pointer : ℕ → ℕ → ContextOp

-- The answer, which is none of an operation that has no other, and the map after it.
unfoldable pub slot_promise : ContextOp → Store → Option ℕ × Store
slot_promise (get_context_slot t) s = (get t s.values, s)
slot_promise (set_context_slot t v) s =
    (get t s.values, record { values = (t, v) ∷ delete t s.values; dropped = s.dropped })
slot_promise (remove_context_slot t) s =
    (get t s.values, record { values = delete t s.values; dropped = s.dropped })
slot_promise clear_context_slots s =
    (none, record { values = []; dropped = s.dropped ++ slot_values s.values })
slot_promise (set_data_value i v) s = (none, s)
slot_promise (set_data_pointer i p) s = (none, s)

unfoldable pub slot_promises : List ContextOp → Store → List (Option ℕ) × Store
unfolding slot_promise
slot_promises [] s = ([], s)
slot_promises (op ∷ ops) s =
    let (answer, after) = slot_promise op s in
    let (answers, last) = slot_promises ops after in (answer ∷ answers, last)

-- An aligned pointer has its lowest bit clear.
abbrev pub IsAligned : ℕ → Type 0
IsAligned p = p % 2 ≡ 0

-- A write to the embedder data, in a field that V8 has room for, that is not the annex's; a pointer is
-- aligned.
abbrev pub SparesAnnex : FieldStore → ContextOp → Type 0
SparesAnnex d (set_data_value i v) = (field_of i ≢ context_annex_slot) × (field_of i < d.limit)
SparesAnnex d (set_data_pointer i p) =
    (field_of i ≢ context_annex_slot) × (field_of i < d.limit) × IsAligned p
SparesAnnex d _ = Unit

module _ (d : FieldStore) (allocate : List (ℕ × ContextAnnex) → ℕ) where
  unfoldable pub context_step :
      ContextOp → ContextState d allocate → Option (Option ℕ × ContextState d allocate)
  unfolding context_get_slot context_set_slot context_remove_slot clear_all_slots set_embedder_data
      set_aligned_pointer_in_embedder_data
  context_step (get_context_slot t) w = context_get_slot d allocate t w
  context_step (set_context_slot t v) w = context_set_slot d allocate t v w
  context_step (remove_context_slot t) w = context_remove_slot d allocate t w
  context_step clear_context_slots w = do after ← clear_all_slots d allocate w; some (none, after)
  context_step (set_data_value i v) w = do
    after ← set_embedder_data d allocate i v w
    some (none, after)
  context_step (set_data_pointer i p) w = do
    after ← set_aligned_pointer_in_embedder_data d allocate i p w
    some (none, after)

  unfoldable pub context_steps :
      List ContextOp → ContextState d allocate → Option (List (Option ℕ) × ContextState d allocate)
  unfolding context_step
  context_steps [] w = some ([], w)
  context_steps (op ∷ ops) w = do
    one ← context_step op w
    more ← context_steps ops one.1
    some (one.0 ∷ more.0, more.1)

  unfoldable pub second_passes : List ℕ → ContextState d allocate → Option (ContextState d allocate)
  unfolding second_pass
  second_passes [] w = some w
  second_passes (id ∷ ids) w = do after ← second_pass d allocate id w; second_passes ids after

  -- A context is used, and after that V8 may run second passes of its weak handles, of old ones
  -- too, before the isolate is torn down.
  unfoldable pub context_life :
      List ContextOp
      → List ℕ
      → ContextState d allocate
      → Option (List (Option ℕ) × ContextState d allocate)
  unfolding context_steps second_passes teardown
  context_life ops ids w = do
    used ← context_steps ops w
    collected ← second_passes ids used.1
    gone ← teardown d allocate collected
    some (used.0, gone)
