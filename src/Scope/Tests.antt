-- ===== src/Scope/Tests.antt =====
-- Nested scopes, and an instance of the theorem on them.
use rusty_v.Base.{
  ◌≤◌, Bool, false, ℕ, ◌+◌, ◌-◌, ◌≡◌, refl, arith, List, [], ◌∷◌, Option, none, some,
}
use rusty_v.Scope.{
  Engine, IsNested, handle_scope, callback_scope, Code, stop, get_current, with_handle_scope,
  with_escapable, with_context, escape, run_code,
}
use rusty_v.Scope.Nested.{AvoidsCallback, EscapesOnce, escapes}
use rusty_v.Scope.Cached.{IsCoherent, run_code_lem}

abbrev entered_last : List ℕ → ℕ
entered_last [] = 0
entered_last (c ∷ cs) = c

abbrev left : List ℕ → List ℕ
left [] = []
left (c ∷ cs) = cs

-- The contexts that are entered, and the number of handle scopes.
abbrev stacks : Engine
stacks = record {
  State = List ℕ × ℕ;
  enter = λ c s. (c ∷ s.0, s.1);
  exit = λ s. (left s.0, s.1);
  current = λ s. entered_last s.0;
  construct = λ s. (s.0, s.1 + 1);
  destruct = λ s. (s.0, s.1 - 1);
}

one_less : (n : ℕ) → n + 1 - 1 ≡ n
one_less n = omega arith

stacks-IsNested : IsNested stacks
stacks-IsNested = record {
  exit-enter = λ c s. refl;
  current-enter = λ c s. refl;
  destruct-construct = λ s. rw (one_less s.1) refl;
  current-construct = λ s. refl;
}

-- Context 5, with context 6 inside a handle scope of it.
abbrev nest : Code
nest =
    with_context 5
      (get_current (
        with_handle_scope (with_context 6 (get_current stop) (get_current stop))
          (get_current stop)))
      (with_escapable (get_current (escape stop)) stop)

nest-AvoidsCallback : AvoidsCallback handle_scope nest
unfolding AvoidsCallback
nest-AvoidsCallback = (refl, ((refl, tt, tt), tt), (tt, tt))

nest-EscapesOnce : EscapesOnce nest
unfolding EscapesOnce escapes
nest-EscapesOnce = ((omega arith, (tt, tt), tt), (omega arith, tt, tt))

nest-escapes : escapes nest ≤ 0
unfolding escapes
nest-escapes = omega arith

run_code_lem_example :
    (cell : Option ℕ) × (slot : Bool) × (run_code stacks 1 1 nest handle_scope none false
        (4 ∷ [], 1)
      ≡ some (record {
        cell = cell;
        slot = slot;
        engine = (4 ∷ [], 1);
        answers = 5 ∷ 6 ∷ 5 ∷ 5 ∷ 4 ∷ [];
      }))
    × IsCoherent stacks cell (4 ∷ [], 1)
    × (run_code stacks 1 1
          (with_context 9 (get_current stop) stop)
          callback_scope
          (some 4)
          false
          (4 ∷ [], 1)
        ≡ some (record { cell = none; slot = false; engine = (4 ∷ [], 1); answers = 4 ∷ [] }))
    × (run_code stacks 1 1 (escape (escape nest)) handle_scope none false (4 ∷ [], 1) ≡ none)
run_code_lem_example =
    run_code_lem stacks stacks-IsNested 1 nest handle_scope none false (4 ∷ [], 1) 4 9
      nest-AvoidsCallback nest-EscapesOnce nest-escapes tt tt
