-- ===== src/Isolate/Tests.antt =====
-- Runs of the isolate code, and instances of its theorems.
use rusty_v.Base.{
  inr, ◌++◌, ℕ, ◌≡◌, refl, true, false, if◌then◌else◌, ◌==◌, ==-self, List, [], ◌∷◌, Option, none,
  some, arith,
}
use rusty_v.Isolate.Slots.{
  Layout, found, set, SlotOp, get_slot, remove_slot, get_slot_mut, set_slot, drop_slots,
  perform_all, get, delete, needs_box,
}
use rusty_v.Isolate.Slots.Reference.{
  Store, promise_all, promise, is_none, update, dropping, dropping_all,
}
use rusty_v.Isolate.Slots.Refines.{annex_of, perform_all_lem}
use rusty_v.Isolate.DataSlots.{
  DataStore, IsArray, get_number_of_data_slots, get_data, set_data, get_annex, set_data_lem,
}
use rusty_v.Isolate.Shared.{
  terminate_execution, is_execution_terminating, dispose, new_handle, run_shared, requests, replies,
  all_false, addressed, run_shared_lem,
}
use rusty_v.Isolate.Owned.{Entry, IsStack, OwnedIsolate, drop_isolate}
use rusty_v.Isolate.Owned.Nesting.{
  running, teardown_of, Program, stop, scoped, torn_down, run_program, drop_isolate_lem,
  run_program_lem,
}

-- Type 1 is a word with drop glue, type 2 a large value without, type 3 a small one without.
abbrev layout : ℕ → Layout
layout t =
    if t == 1
    then record { size = 8; align = 8; has_drop = true }
    else (if t == 2
        then record { size = 64; align = 8; has_drop = false }
        else record { size = 4; align = 4; has_drop = false })

abbrev ops : List SlotOp
ops =
    set_slot 1 10
    ∷ set_slot 2 20
    ∷ set_slot 1 11
    ∷ get_slot 2
    ∷ remove_slot 3
    ∷ get_slot_mut 2 21
    ∷ remove_slot 2
    ∷ drop_slots
    ∷ []

abbrev empty_store : Store
empty_store = record { values = []; dropped = [] }

perform_all_lem_example :
    perform_all layout ops (annex_of layout empty_store)
    ≡ (let (answers, s') = promise_all layout ops empty_store in some (answers, annex_of layout s'))
perform_all_lem_example = perform_all_lem layout ops empty_store

ops-promise : promise_all layout ops empty_store ≡ (
  set true
      ∷ set true
      ∷ set false
      ∷ found (some 20)
      ∷ found none
      ∷ found (some 20)
      ∷ found (some 21)
      ∷ set true
      ∷ [],
  record { values = []; dropped = 10 ∷ 11 ∷ [] },
)
unfolding promise_all promise is_none update dropping dropping_all get delete needs_box
ops-promise = refl

-- A store that is a function.
abbrev table : DataStore
table = record {
  State = ℕ → ℕ;
  get_raw = λ s i. s i;
  set_raw = λ s i p. (λ j. if i == j then p else s j);
  count = λ s. 4;
}

table-IsArray : IsArray table
table-IsArray = record {
  same = λ s i p below. rw (==-self i) refl;
  other = λ s i j p below also ne. ground arith;
  kept = λ s i p below. refl;
  is_u32 = λ s. omega arith;
}

abbrev fresh_slots : ℕ → ℕ
fresh_slots i = if i == 0 then 4096 else 0

set_data_lem_example :
    (get_data table (set_data table fresh_slots 4294967295 7) 4294967295 ≡ 7)
    × (get_data table (set_data table fresh_slots 4294967295 7) 2 ≡ get_data table fresh_slots 2)
    × (get_number_of_data_slots table (set_data table fresh_slots 4294967295 7) ≡ some 3)
    × (get_annex table (set_data table fresh_slots 4294967295 7) ≡ (
        if 4294967295 == 4294967295
        then (if 7 == 0 then none else some 7)
        else get_annex table fresh_slots))
unfolding get_number_of_data_slots
set_data_lem_example =
    set_data_lem table table-IsArray fresh_slots 3 4294967295 2 7 refl (inr refl) (omega arith)
      (omega arith)

-- Asked to terminate, asked whether it does, disposed, and asked to terminate again.
run_shared_lem_example :
    run_shared
      (requests ((terminate_execution, true) ∷ (is_execution_terminating, true) ∷ [])
        ++ (dispose ∷ requests ((terminate_execution, true) ∷ [])))
      (new_handle 5)
    ≡ (
      replies ((terminate_execution, true) ∷ (is_execution_terminating, true) ∷ [])
          ++ (true ∷ all_false ((terminate_execution, true) ∷ [])),
      record {
        isolate = none;
        sent = addressed 5 ((terminate_execution, true) ∷ (is_execution_terminating, true) ∷ []);
      },
    )
run_shared_lem_example =
    run_shared_lem 5 ((terminate_execution, true) ∷ (is_execution_terminating, true) ∷ [])
      ((terminate_execution, true) ∷ [])

-- A thread's entered isolates as a list.
abbrev current_of : List ℕ → Option ℕ
current_of [] = none
current_of (i ∷ is) = some i

abbrev exit_from : List ℕ → List ℕ
exit_from [] = []
exit_from (i ∷ is) = is

abbrev thread : Entry
thread = record { State = List ℕ; current = current_of; enter = λ i s. i ∷ s; exit = exit_from }

thread-IsStack : IsStack thread
thread-IsStack = record { current-enter = λ i s. refl; exit-enter = λ i s. refl }

abbrev owned : OwnedIsolate
owned = record { cxx_isolate = 2; has_snapshot_creator = false }

drop_isolate_lem_example :
    drop_isolate thread owned (record { process = running 7 []; thread = 2 ∷ 1 ∷ []; log = [] })
    ≡ some (record { process = running 7 []; thread = 1 ∷ []; log = teardown_of 2 })
drop_isolate_lem_example = drop_isolate_lem thread thread-IsStack owned 2 7 [] (1 ∷ []) []

abbrev nested : Program
nested = scoped 1 (scoped 2 stop (scoped 3 stop stop)) (scoped 4 stop stop)

run_program_lem_example :
    run_program thread nested (record { process = running 7 []; thread = []; log = [] })
    ≡ some (record { process = running 7 []; thread = []; log = torn_down nested })
run_program_lem_example = run_program_lem thread thread-IsStack nested 7 [] [] []
