-- ===== src/Isolate/Owned.antt =====
-- `OwnedIsolate` (src/isolate.rs): isolates are entered when they are made and exited when they are
-- dropped, in the reverse order.
--
-- The isolates that V8 has entered on the thread are a parameter. `none` is a panic. What the
-- teardown does is recorded in its order.
pub mod Nesting
use rusty_v.Base.{
  ℕ, ◌≡◌, Bool, true, false, not, ◌==◌, List, [], ◌∷◌, ◌++◌, Option, none, some, ◌>>=◌, ◌>>◌,
  assert,
}
use rusty_v.V8.{
  Process, Outcome, done, platform, panicked, Call, assert_initialized, get_current_platform, call,
}

-- `v8__Isolate__GetCurrent`, `v8__Isolate__Enter` and `v8__Isolate__Exit` on one thread.
pub record Entry : Type 1 where
  pub State : Type 0
  pub current : State → Option ℕ
  pub enter : ℕ → State → State
  pub exit : State → State

-- An entered isolate is the current one, and an exit restores what was entered before.
pub record IsStack (e : Entry) : Type 0 where
  pub current-enter : (i : ℕ) (s : e.State) → e.current (e.enter i s) ≡ some i
  pub exit-enter : (i : ℕ) (s : e.State) → e.exit (e.enter i s) ≡ s

-- The steps of a teardown.
pub data Teardown : Type 0 where
  exited handle_disposed slots_dropped finalizers_run platform_notified v8_disposed annex_freed :
      ℕ → Teardown

-- An isolate, and whether its annex still has the snapshot creator that made it.
pub record OwnedIsolate : Type 0 where
  pub cxx_isolate : ℕ
  pub has_snapshot_creator : Bool

unfoldable pub is_isolate : Option ℕ → ℕ → Bool
is_isolate none i = false
is_isolate (some j) i = j == i

-- The outcome of one of the calls of src/V8.rs that `assert_initialized` and
-- `get_current_platform` are.
unfoldable pub returned : Process × Outcome → Option Process
returned (s, done) = some s
returned (s, platform p) = some s
returned (s, panicked) = none

-- `prepare_annex_for_dispose`.
unfoldable pub prepare_annex_for_dispose : ℕ → List Teardown → List Teardown
prepare_annex_for_dispose i log = log ++ (handle_disposed i ∷ slots_dropped i ∷ [])

-- `finish_annex_dispose`.
unfoldable pub finish_annex_dispose : ℕ → List Teardown → List Teardown
finish_annex_dispose i log = log ++ (finalizers_run i ∷ annex_freed i ∷ [])

-- `dispose_annex`, on the way of `create_blob`.
unfoldable pub dispose_annex : ℕ → List Teardown → List Teardown
dispose_annex i log = prepare_annex_for_dispose i log ++ (finalizers_run i ∷ annex_freed i ∷ [])

module _ (entry : Entry) where
  pub record World : Type 0 where
    pub process : Process
    pub thread : entry.State
    pub log : List Teardown

  -- `Isolate::new`, with the isolate that V8 makes.
  unfoldable pub new_isolate : ℕ → World → Option World
  new_isolate i w = do
    process ← returned (call w.process assert_initialized)
    some (record w { process = process; thread = entry.enter i w.thread })

  -- `drop`.
  unfoldable pub drop_isolate : OwnedIsolate → World → Option World
  drop_isolate o w = do
    assert (not o.has_snapshot_creator)
    assert (is_isolate (entry.current w.thread) o.cxx_isolate)
    let i = o.cxx_isolate
    let prepared = prepare_annex_for_dispose i (w.log ++ (exited i ∷ []))
    process ← returned (call w.process get_current_platform)
    let disposed = prepared ++ (finalizers_run i ∷ platform_notified i ∷ v8_disposed i ∷ [])
    some (record {
      process = process;
      thread = entry.exit w.thread;
      log = finish_annex_dispose i disposed;
    })

  -- `create_blob` up to the call of the snapshot creator, which then owns the isolate.
  unfoldable pub create_blob : OwnedIsolate → World → Option World
  create_blob o w = do
    assert o.has_snapshot_creator
    some (record w { log = dispose_annex o.cxx_isolate w.log })
