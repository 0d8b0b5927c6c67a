-- ===== src/Scope.antt =====
-- Scopes and the context that they cache (src/scope.rs).
--
-- A scope borrows the scope that it is made from until it is dropped, so that code is a tree: what is
-- done with a scope, and inside the scopes made from it. V8 is a parameter: the contexts that are
-- entered, and the handle scopes that are constructed; the handles that these hold are not tracked.
-- A context is a number. `none` is a panic.
pub mod Nested
pub mod Cached
mod Tests
use rusty_v.Base.{
  ℕ, ◌≡◌, Bool, true, false, if◌then◌else◌, ◌==◌, List, [], ◌∷◌, ◌++◌, Option, none, some, ◌>>=◌,
  ◌>>◌, assert,
}

pub record Engine : Type 1 where
  pub State : Type 0
  pub enter : ℕ → State → State
  pub exit : State → State
  pub current : State → ℕ
  pub construct : State → State
  pub destruct : State → State

-- Contexts and handle scopes are left in the reverse of the order in which they are entered, and a
-- handle scope changes no context.
pub record IsNested (v : Engine) : Type 0 where
  pub exit-enter : (c : ℕ) (s : v.State) → v.exit (v.enter c s) ≡ s
  pub current-enter : (c : ℕ) (s : v.State) → v.current (v.enter c s) ≡ c
  pub destruct-construct : (s : v.State) → v.destruct (v.construct s) ≡ s
  pub current-construct : (s : v.State) → v.current (v.construct s) ≡ v.current s

-- The scope that code works with. A `ContextScope` is a view of a `HandleScope`, or of an
-- `EscapableHandleScope`, with the context that it entered; one that is made from a `CallbackScope`
-- is a view of it as a `HandleScope`.
pub data ScopeKind : Type 0 where
  handle_scope callback_scope escapable_scope : ScopeKind
  context_scope escapable_context_scope : ℕ → ScopeKind

-- What is done with a scope: the current context is asked for, a scope is made from it, used and
-- dropped, or a handle is escaped, before the rest.
pub data Code : Type 0 where
  stop : Code
  get_current : Code → Code
  with_handle_scope with_escapable : Code → Code → Code
  with_context : ℕ → Code → Code → Code
  escape : Code → Code

-- `clear_cached_context` for a scope, on its cell.
unfoldable pub clear_cached_context : ScopeKind → Option ℕ → Option ℕ
clear_cached_context callback_scope cell = cell
clear_cached_context handle_scope cell = none
clear_cached_context escapable_scope cell = none
clear_cached_context (context_scope e) cell = none
clear_cached_context (escapable_context_scope e) cell = none

-- The cell of a `HandleScope` that is made from a scope.
unfoldable pub new_handle_cell : ScopeKind → Option ℕ → Option ℕ
new_handle_cell (context_scope e) cell = some e
new_handle_cell handle_scope cell = cell
new_handle_cell callback_scope cell = cell
new_handle_cell escapable_scope cell = cell
new_handle_cell (escapable_context_scope e) cell = cell

-- The cell of an `EscapableHandleScope` that is made from a scope: a copy, also of the cell that a
-- `ContextScope` views.
unfoldable pub new_escapable_cell : ScopeKind → Option ℕ → Option ℕ
new_escapable_cell kind cell = cell

-- `make_new_scope` of a `ContextScope`: its kind, and the cell that it views.
unfoldable pub new_context_kind : ScopeKind → ℕ → ScopeKind
new_context_kind handle_scope c = context_scope c
new_context_kind callback_scope c = context_scope c
new_context_kind escapable_scope c = escapable_context_scope c
new_context_kind (context_scope e) c = context_scope c
new_context_kind (escapable_context_scope e) c = escapable_context_scope c

unfoldable pub viewed_cell : ScopeKind → Option ℕ → Option ℕ
viewed_cell handle_scope cell = none
viewed_cell callback_scope cell = cell
viewed_cell escapable_scope cell = cell
viewed_cell (context_scope e) cell = cell
viewed_cell (escapable_context_scope e) cell = cell

module _ (v : Engine) where
  -- The cell of the scope, whether it has its escape slot still, V8, and the contexts that were
  -- answered.
  pub record ScopeOutcome : Type 0 where
    pub cell : Option ℕ
    pub slot : Bool
    pub engine : v.State
    pub answers : List ℕ

  -- `get_current_context`: the answer and the cell.
  unfoldable pub get_current_context : Option ℕ → v.State → ℕ × Option ℕ
  get_current_context (some c) s = (c, some c)
  get_current_context none s = (v.current s, some (v.current s))

  -- `ScopeStorage::init` and its drop, where the scope is a handle scope.
  unfoldable pub init_storage : Bool → v.State → Bool × v.State
  init_storage inited s = (true, if inited then v.construct (v.destruct s) else v.construct s)

  unfoldable pub drop_storage : Bool → v.State → v.State
  drop_storage inited s = if inited then v.destruct s else s

  module _ (isolate current_isolate : ℕ) where
    -- `ContextScope::new`: the cell that the new scope views, and V8.
    unfoldable pub new_context_scope :
        ScopeKind → Option ℕ → ℕ → v.State → Option (Option ℕ × v.State)
    unfolding clear_cached_context viewed_cell
    new_context_scope kind cell c s = do
      assert (isolate == current_isolate)
      some (viewed_cell kind (clear_cached_context kind cell), v.enter c s)

    -- The drop of a `ContextScope`: the cell that it views is cleared, and the context is exited.
    unfoldable pub drop_context_scope : ScopeKind → Option ℕ → v.State → Option ℕ × v.State
    unfolding clear_cached_context
    drop_context_scope kind cell s = (clear_cached_context kind cell, v.exit s)

    -- `escape` takes the slot, and panics without one.
    unfoldable pub take_slot : Bool → Option Bool
    take_slot slot = do assert slot; some false

    -- The answers of a scope's code before those of the rest.
    unfoldable pub joined : List ℕ → ScopeOutcome → ScopeOutcome
    joined answers after = record {
      cell = after.cell;
      slot = after.slot;
      engine = after.engine;
      answers = answers ++ after.answers;
    }

    -- A `ContextScope` leaves the slot to the scope that it views; only a scope that is escapable, or a
    -- view of one, has a slot.
    unfoldable pub run_code : Code → ScopeKind → Option ℕ → Bool → v.State → Option ScopeOutcome
    unfolding get_current_context init_storage drop_storage new_context_scope drop_context_scope
        new_handle_cell new_escapable_cell new_context_kind take_slot joined
    run_code stop kind cell slot s =
        some (record { cell = cell; slot = slot; engine = s; answers = [] })
    run_code (get_current rest) kind cell slot s =
        let (c, cell') = get_current_context cell s in
        do after ← run_code rest kind cell' slot s; some (joined (c ∷ []) after)
    run_code (escape rest) kind cell slot s = do
      taken ← take_slot slot
      run_code rest kind cell taken s
    run_code (with_handle_scope inner rest) kind cell slot s =
        let (inited, constructed) = init_storage false s in
        do
          within ← run_code inner handle_scope (new_handle_cell kind cell) false constructed
          after ← run_code rest kind cell slot (drop_storage inited within.engine)
          some (joined within.answers after)
    run_code (with_escapable inner rest) kind cell slot s =
        let (inited, constructed) = init_storage false s in
        do
          within ← run_code inner escapable_scope (new_escapable_cell kind cell) true constructed
          after ← run_code rest kind cell slot (drop_storage inited within.engine)
          some (joined within.answers after)
    run_code (with_context c inner rest) kind cell slot s = do
      made ← new_context_scope kind cell c s
      within ← run_code inner (new_context_kind kind c) made.0 slot made.1
      let dropped = drop_context_scope (new_context_kind kind c) within.cell within.engine
      after ← run_code rest kind dropped.0 within.slot dropped.1
      some (joined within.answers after)
