-- ===== src/Scope/Cached.antt =====
-- The cached context and V8's.
use rusty_v.Base.{
  ℕ, ◌+◌, ◌≤◌, arith, ◌≡◌, refl, sym, ◌∙◌, ==-self, Bool, true, false, [], ◌∷◌, Option, none, some,
}
use rusty_v.Scope.{
  Engine, IsNested, ScopeKind, handle_scope, callback_scope, escapable_scope, context_scope,
  escapable_context_scope, Code, stop, get_current, with_handle_scope, with_escapable, with_context,
  escape, take_slot, joined, clear_cached_context, new_handle_cell, new_escapable_cell,
  new_context_kind, viewed_cell, get_current_context, init_storage, drop_storage, new_context_scope,
  drop_context_scope, run_code,
}
use rusty_v.Scope.Nested.{contexts_of, is_callback, AvoidsCallback, escapes, EscapesOnce, slots}

module _ (v : Engine) where
  -- What a cell may hold: nothing, or the current context.
  abbrev pub IsCoherent : Option ℕ → v.State → Type 0
  IsCoherent none s = Unit
  IsCoherent (some c) s = c ≡ v.current s

  -- A `ContextScope` is worked with while the context that it entered is the current one.
  abbrev pub IsAt : ScopeKind → v.State → Type 0
  IsAt (context_scope e) s = e ≡ v.current s
  IsAt _ s = Unit

  module _ (nested : IsNested v) where
    asked :
        (cell : Option ℕ) (s : v.State)
        → IsCoherent cell s
        → get_current_context v cell s ≡ (v.current s, some (v.current s))
    unfolding get_current_context
    asked none s h = refl
    asked (some c) s h = rw h refl

    handle-IsCoherent :
        (kind : ScopeKind) (cell : Option ℕ) (s : v.State)
        → IsAt kind s
        → IsCoherent cell s
        → IsCoherent (new_handle_cell kind cell) (v.construct s)
    unfolding new_handle_cell
    handle-IsCoherent (context_scope e) cell s k h = k ∙ sym (nested.current-construct s)
    handle-IsCoherent handle_scope none s k h = tt
    handle-IsCoherent handle_scope (some c) s k h = h ∙ sym (nested.current-construct s)
    handle-IsCoherent callback_scope none s k h = tt
    handle-IsCoherent callback_scope (some c) s k h = h ∙ sym (nested.current-construct s)
    handle-IsCoherent escapable_scope none s k h = tt
    handle-IsCoherent escapable_scope (some c) s k h = h ∙ sym (nested.current-construct s)
    handle-IsCoherent (escapable_context_scope e) none s k h = tt
    handle-IsCoherent (escapable_context_scope e) (some c) s k h =
        h ∙ sym (nested.current-construct s)

    escapable-IsCoherent :
        (kind : ScopeKind) (cell : Option ℕ) (s : v.State)
        → IsCoherent cell s
        → IsCoherent (new_escapable_cell kind cell) (v.construct s)
    unfolding new_escapable_cell
    escapable-IsCoherent kind none s h = tt
    escapable-IsCoherent kind (some c) s h = h ∙ sym (nested.current-construct s)

    cleared :
        (kind : ScopeKind) (cell : Option ℕ)
        → is_callback kind ≡ false
        → viewed_cell kind (clear_cached_context kind cell) ≡ none
    unfolding viewed_cell clear_cached_context
    cleared handle_scope cell h = refl
    cleared callback_scope cell h = cc
    cleared escapable_scope cell h = refl
    cleared (context_scope e) cell h = refl
    cleared (escapable_context_scope e) cell h = refl

    cleared_view :
        (kind : ScopeKind) (c : ℕ) (cell : Option ℕ)
        → clear_cached_context (new_context_kind kind c) cell ≡ none
    unfolding clear_cached_context new_context_kind
    cleared_view handle_scope c cell = refl
    cleared_view callback_scope c cell = refl
    cleared_view escapable_scope c cell = refl
    cleared_view (context_scope e) c cell = refl
    cleared_view (escapable_context_scope e) c cell = refl

    entered-IsAt :
        (kind : ScopeKind) (c : ℕ) (s : v.State) → IsAt (new_context_kind kind c) (v.enter c s)
    unfolding new_context_kind
    entered-IsAt handle_scope c s = sym (nested.current-enter c s)
    entered-IsAt callback_scope c s = sym (nested.current-enter c s)
    entered-IsAt escapable_scope c s = tt
    entered-IsAt (context_scope e) c s = sym (nested.current-enter c s)
    entered-IsAt (escapable_context_scope e) c s = tt

    Answers : ℕ → Code → ScopeKind → Option ℕ → Bool → v.State → Type 0
    Answers isolate code kind cell slot s =
        (cell' : Option ℕ) × (slot' : Bool) × (run_code v isolate isolate code kind cell slot s
          ≡ some (record {
            cell = cell';
            slot = slot';
            engine = s;
            answers = contexts_of code (v.current s);
          }))
        × IsCoherent cell' s
        × (slots slot' + escapes code ≡ slots slot)

    run-Answers :
        (isolate : ℕ) (code : Code) (kind : ScopeKind) (cell : Option ℕ) (slot : Bool) (s : v.State)
        → AvoidsCallback kind code
        → IsCoherent cell s
        → IsAt kind s
        → EscapesOnce code
        → escapes code ≤ slots slot
        → Answers isolate code kind cell slot s
    unfolding AvoidsCallback EscapesOnce escapes Answers run_code joined take_slot init_storage
        drop_storage new_context_scope drop_context_scope
    run-Answers isolate stop kind cell slot s avoids h k once few =
        (cell, slot, refl, h, omega arith)
    run-Answers isolate (get_current rest) kind cell slot s avoids h k once few =
        let (cell', slot', after, h', left) =
          run-Answers isolate rest kind (some (v.current s)) slot s avoids refl k once few in
        (cell', slot', rw (asked cell s h, after) refl, h', left)
    run-Answers isolate (escape rest) kind cell false s avoids h k once few = absurd (omega arith)
    run-Answers isolate (escape rest) kind cell true s avoids h k once few =
        let (cell', slot', after, h', left) =
          run-Answers isolate rest kind cell false s avoids h k once (omega arith) in
        (cell', slot', rw after refl, h', omega arith)
    run-Answers isolate (with_handle_scope inner rest) kind cell slot s avoids h k once few =
        let (c1, l1, within, h1, left1) =
          run-Answers isolate inner handle_scope (new_handle_cell kind cell) false (v.construct s)
            avoids.0 (handle-IsCoherent kind cell s k h) tt once.1 once.0 in
        let (c2, l2, after, h2, left2) =
          run-Answers isolate rest kind cell slot s avoids.1 h k once.2 few in
        (
          c2,
          l2,
          rw (within, nested.destruct-construct s, after, nested.current-construct s) refl,
          h2,
          left2,
        )
    run-Answers isolate (with_escapable inner rest) kind cell slot s avoids h k once few =
        let (c1, l1, within, h1, left1) =
          run-Answers isolate inner escapable_scope (new_escapable_cell kind cell) true
            (v.construct s) avoids.0 (escapable-IsCoherent kind cell s h) tt once.1 once.0 in
        let (c2, l2, after, h2, left2) =
          run-Answers isolate rest kind cell slot s avoids.1 h k once.2 few in
        (
          c2,
          l2,
          rw (within, nested.destruct-construct s, after, nested.current-construct s) refl,
          h2,
          left2,
        )
    run-Answers isolate (with_context c inner rest) kind cell slot s avoids h k once few =
        let (c1, l1, within, h1, left1) =
          run-Answers isolate inner (new_context_kind kind c) none slot (v.enter c s) avoids.1 tt
            (entered-IsAt kind c s) once.0 (omega arith) in
        let (c2, l2, after, h2, left2) =
          run-Answers isolate rest kind none l1 s avoids.2 tt k once.1 (omega arith) in
        (
          c2,
          l2,
          rw
              (
                ==-self isolate,
                cleared kind cell avoids.0,
                within,
                cleared_view kind c c1,
                nested.exit-enter c s,
                after,
                nested.current-enter c s,
              )
              refl,
          h2,
          omega arith,
        )

    escape_twice :
        (isolate : ℕ) (code : Code) (kind : ScopeKind) (cell : Option ℕ) (slot : Bool) (s : v.State)
        → run_code v isolate isolate (escape (escape code)) kind cell slot s ≡ none
    unfolding run_code take_slot
    escape_twice isolate code kind cell false s = refl
    escape_twice isolate code kind cell true s = refl

    -- In code that makes no `ContextScope` of a `CallbackScope` itself and escapes at most one handle from
    -- each escapable scope, and from a scope whose cell is empty or holds the current context: nothing
    -- panics, each answer is the context that was entered last, and at the end V8 has the contexts and
    -- handle scopes of the beginning and the cell is again one of the two. A `ContextScope` for `c1` that
    -- is made of a `CallbackScope` which has cached `c0` goes on answering `c0`. A second escape from a
    -- scope panics.
    pub run_code_lem :
        (isolate : ℕ) (code : Code) (kind : ScopeKind) (cell : Option ℕ) (slot : Bool) (s : v.State)
        (c0 c1 : ℕ)
        → AvoidsCallback kind code
        → EscapesOnce code
        → escapes code ≤ slots slot
        → IsCoherent cell s
        → IsAt kind s
        → (cell' : Option ℕ) × (slot' : Bool) × (run_code v isolate isolate code kind cell slot s
            ≡ some (record {
              cell = cell';
              slot = slot';
              engine = s;
              answers = contexts_of code (v.current s);
            }))
          × IsCoherent cell' s
          × (run_code v isolate isolate
                (with_context c1 (get_current stop) stop)
                callback_scope
                (some c0)
                false
                s
              ≡ some (record { cell = none; slot = false; engine = s; answers = c0 ∷ [] }))
          × (run_code v isolate isolate (escape (escape code)) kind cell slot s ≡ none)
    unfolding Answers run_code joined new_context_scope drop_context_scope get_current_context
        clear_cached_context viewed_cell new_context_kind
    run_code_lem isolate code kind cell slot s c0 c1 avoids once few h k =
        let (cell', slot', ran, h', left) =
          run-Answers isolate code kind cell slot s avoids h k once few in
        (
          cell',
          slot',
          ran,
          h',
          rw (==-self isolate, nested.exit-enter c1 s) refl,
          escape_twice isolate code kind cell slot s,
        )
