-- ===== src/Scope/Nested.antt =====
-- What nested scopes promise, and which code they promise it of.
use rusty_v.Base.{ℕ, ◌+◌, ◌≤◌, ◌≡◌, Bool, true, false, List, [], ◌∷◌, ◌++◌}
use rusty_v.Scope.{
  ScopeKind, handle_scope, callback_scope, escapable_scope, Code, stop, get_current,
  with_handle_scope, with_escapable, with_context, escape, new_context_kind,
}

-- The contexts that V8 would answer: the one that was entered last.
abbrev pub contexts_of : Code → ℕ → List ℕ
contexts_of stop current = []
contexts_of (escape rest) current = contexts_of rest current
contexts_of (get_current rest) current = current ∷ contexts_of rest current
contexts_of (with_handle_scope inner rest) current =
    contexts_of inner current ++ contexts_of rest current
contexts_of (with_escapable inner rest) current =
    contexts_of inner current ++ contexts_of rest current
contexts_of (with_context c inner rest) current = contexts_of inner c ++ contexts_of rest current

abbrev pub is_callback : ScopeKind → Bool
is_callback callback_scope = true
is_callback _ = false

-- No `ContextScope` is made of a `CallbackScope` itself.
unfoldable pub AvoidsCallback : ScopeKind → Code → Type 0
unfolding new_context_kind
AvoidsCallback kind stop = Unit
AvoidsCallback kind (escape rest) = AvoidsCallback kind rest
AvoidsCallback kind (get_current rest) = AvoidsCallback kind rest
AvoidsCallback kind (with_handle_scope inner rest) =
    AvoidsCallback handle_scope inner × AvoidsCallback kind rest
AvoidsCallback kind (with_escapable inner rest) =
    AvoidsCallback escapable_scope inner × AvoidsCallback kind rest
AvoidsCallback kind (with_context c inner rest) =
    (is_callback kind ≡ false)
    × AvoidsCallback (new_context_kind kind c) inner
    × AvoidsCallback kind rest

-- The handles that code escapes from its scope, also by way of a `ContextScope`.
unfoldable pub escapes : Code → ℕ
escapes stop = 0
escapes (get_current rest) = escapes rest
escapes (with_handle_scope inner rest) = escapes rest
escapes (with_escapable inner rest) = escapes rest
escapes (with_context c inner rest) = escapes inner + escapes rest
escapes (escape rest) = 1 + escapes rest

-- The scopes inside: from one that is escapable at most one handle is escaped, from others none.
unfoldable pub EscapesOnce : Code → Type 0
unfolding escapes
EscapesOnce stop = Unit
EscapesOnce (get_current rest) = EscapesOnce rest
EscapesOnce (escape rest) = EscapesOnce rest
EscapesOnce (with_handle_scope inner rest) =
    (escapes inner ≤ 0) × EscapesOnce inner × EscapesOnce rest
EscapesOnce (with_escapable inner rest) = (escapes inner ≤ 1) × EscapesOnce inner × EscapesOnce rest
EscapesOnce (with_context c inner rest) = EscapesOnce inner × EscapesOnce rest

abbrev pub slots : Bool → ℕ
slots true = 1
slots false = 0
