-- ===== src/Handle/Tests.antt =====
-- Runs of the handle code, and instances of its theorems.
use rusty_v.Base.{
  ℕ, ◌+◌, ◌<◌, ◌≡◌, refl, ◌↔◌, ◌⊎◌, true, false, List, [], ◌∷◌, ◌++◌, Option, none, some, arith,
}
use rusty_v.Handle.Host.{scope, isolate, disposed_isolate, match_host, from_ptr, open_handle}
use rusty_v.Handle.Host.Matching.{resolve, match_host_lem, open_handle_iff}
use rusty_v.Handle.Finalizers.{
  regular, guaranteed, empty_map, add, lookup, insert, erase, usize_values,
}
use rusty_v.Handle.Global.{
  Keeper, GlobalEvent, make, clone_one, drop_one, give_raw, take_raw, run_globals,
}
use rusty_v.Handle.Global.Cells.{pinned, run_globals_lem}
use rusty_v.Handle.Weak.{
  step, first_pass_callback, is_held, into_raw, is_some, is_raw, from_raw, WeakState, held, gone,
  weak_from_raw, create, new_raw, Event, weak_drop, weak_into_raw, first_pass, second_pass,
  other_add, dispose_handle, run,
}
use rusty_v.Handle.Weak.Finalization.{
  IsCorrect, called, run-create, collected_runs, IsDangling, drop_in_teardown,
}

match_host_lem_example :
    (match_host scope (isolate 3) (some 4) ≡ match_host (isolate 3) scope (some 4))
    × ((match_host scope (isolate 3) (some 4) ≡ none)
        ↔ (scope ≡ disposed_isolate) ⊎ (isolate 3 ≡ disposed_isolate))
    × ((match_host scope (isolate 3) (some 3) ≡ some true)
        ↔ (k : ℕ) × (resolve 3 scope ≡ some k) × (resolve 3 (isolate 3) ≡ some k))
    × (match_host (isolate 3) scope none ≡ some true)
    × (match_host scope (isolate 4) none ≡ some true)
    × (match_host (isolate 3) (isolate 4) none ≡ some false)
match_host_lem_example = match_host_lem scope (isolate 3) (some 4) 3 3 4 (omega arith)

abbrev named : Option ℕ
named = some 4

open_handle_iff_example : (open_handle (from_ptr named) 90 3 ≡ some 90) ↔ (named ≡ some 3)
open_handle_iff_example = open_handle_iff 3 90 named

-- The handle is collected, its owner drops it between the passes, and another finalizer is added.
abbrev events : List Event
events = other_add (regular 2) ∷ first_pass ∷ weak_drop ∷ other_add (regular 3) ∷ second_pass ∷ []

two_left : 1 + (1 + (create (some (guaranteed 1)) empty_map).finalizers.next_id) < usize_values
unfolding create new_raw add
two_left = omega arith

one_left : 1 + (create (some (guaranteed 1)) empty_map).finalizers.next_id < usize_values
unfolding create new_raw add
one_left = omega arith

run-create_example :
    (s : WeakState) × (run events (create (some (guaranteed 1)) empty_map) ≡ some s)
    × IsCorrect (called (some (guaranteed 1))) s
run-create_example =
    run-create (some (guaranteed 1)) empty_map events (omega arith)
      (tt, (tt, (tt, (tt, (tt, two_left)))))

collected_runs_example :
    (s : WeakState) × (run
        (first_pass ∷ ((weak_into_raw ∷ other_add (regular 2) ∷ []) ++ (second_pass ∷ [])))
        (create (some (guaranteed 1)) empty_map)
      ≡ some s)
    × (s.ran ≡ guaranteed 1 ∷ [])
collected_runs_example =
    collected_runs (guaranteed 1) empty_map (weak_into_raw ∷ other_add (regular 2) ∷ [])
      (omega arith) (tt, (tt, one_left)) (tt, (tt, tt))

abbrev pending_state : WeakState
pending_state = record {
  isolate_ptr = true;
  finalizers = record { map = []; next_id = 1 };
  pointer = false;
  finalizer_id = some 0;
  weak_dropped = true;
  freed = false;
  weak = gone;
  armed = false;
  pending = true;
  ran = [];
}

-- A handle that has become a raw pointer and a handle again, with a finalizer that V8 has to call yet.
abbrev waiting_state : WeakState
waiting_state = record {
  isolate_ptr = true;
  finalizers = record { map = (0, regular 7) ∷ []; next_id = 1 };
  pointer = false;
  finalizer_id = some 0;
  weak_dropped = false;
  freed = false;
  weak = held;
  armed = false;
  pending = true;
  ran = [];
}

drop_in_teardown_example :
    ((s' : WeakState) × (run (dispose_handle ∷ weak_drop ∷ []) waiting_state ≡ some s')
      × IsDangling waiting_state s')
    × ((s' : WeakState) × (run
            (weak_drop ∷ dispose_handle ∷ first_pass ∷ second_pass ∷ [])
            waiting_state
          ≡ some s')
        × (s'.freed ≡ true)
        × (s'.armed ≡ false))
unfolding run create add step first_pass_callback is_held into_raw is_some lookup insert is_raw
    from_raw erase
drop_in_teardown_example =
    drop_in_teardown (some (regular 7)) empty_map (first_pass ∷ weak_into_raw ∷ weak_from_raw ∷ [])
      waiting_state (omega arith) (tt, (tt, (tt, omega arith))) refl refl

-- Two globals, one of them cloned and the other turned into a raw pointer and back.
abbrev global_events : List GlobalEvent
global_events =
    make ∷ clone_one ∷ give_raw 0 ∷ drop_one 0 ∷ drop_one 1 ∷ take_raw 0 ∷ drop_one 0 ∷ []

run_globals_lem_example :
    (n' : ℕ) × (gs' : List (ℕ × Keeper)) × (run_globals 3 global_events (pinned 3 0 [])
      ≡ some (pinned 3 n' gs'))
run_globals_lem_example = run_globals_lem 3 global_events 0 []
