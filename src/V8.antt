-- ===== src/V8.antt =====
-- The process-wide state of V8 (src/V8.rs): a state machine behind a mutex.
--
-- A call that panics does so with the mutex held, and so poisons it: `lock().unwrap()` panics from
-- then on. The calls that reach the C++ library are recorded in their order.
pub mod Lifecycle
mod Tests
use rusty_v.Base.{ℕ, Bool, true, false, List, [], ◌∷◌, ◌++◌}

-- A platform is known by a number: `SharedRef<Platform>` is compared by address.
pub data GlobalState : Type 0 where
  uninitialized : GlobalState
  platform_initialized : ℕ → GlobalState
  initialized : ℕ → GlobalState
  disposed : ℕ → GlobalState
  platform_shutdown : GlobalState

-- The C++ functions that the module calls.
pub data Foreign : Type 0 where
  v8_initialize_platform : ℕ → Foreign
  v8_initialize v8_dispose v8_dispose_platform : Foreign

pub record Process : Type 0 where
  pub global_state : GlobalState
  pub poisoned : Bool
  pub calls : List Foreign

pub data Outcome : Type 0 where
  done : Outcome
  platform : ℕ → Outcome
  panicked : Outcome

-- One call of the module's functions, with the answer of `v8__V8__Dispose` for `dispose`.
pub data Call : Type 0 where
  assert_initialized initialize get_current_platform dispose_platform : Call
  initialize_platform : ℕ → Call
  dispose : Bool → Call

unfoldable pub start : Process
start = record { global_state = uninitialized; poisoned = false; calls = [] }

-- `panic!` with the guard alive.
unfoldable pub panic : Process → Process × Outcome
panic s = (record s { poisoned = true }, panicked)

unfoldable pub enter : Process → GlobalState → Foreign → Process × Outcome
enter s next f = (record s { global_state = next; calls = s.calls ++ (f ∷ []) }, done)

-- The body of each function, with the lock held.
unfoldable pub locked : GlobalState → Call → Process → Process × Outcome
unfolding panic enter
locked (initialized p) assert_initialized s = (s, done)
locked uninitialized (initialize_platform p) s =
    enter s (platform_initialized p) (v8_initialize_platform p)
locked (platform_initialized p) initialize s = enter s (initialized p) v8_initialize
locked (initialized p) get_current_platform s = (s, platform p)
locked (initialized p) (dispose true) s = enter s (disposed p) v8_dispose
locked (initialized p) (dispose false) s = panic (enter s (disposed p) v8_dispose).0
locked (disposed p) dispose_platform s = enter s platform_shutdown v8_dispose_platform
locked _ _ s = panic s

-- `GLOBAL_STATE.lock().unwrap()` first.
unfoldable pub with_lock : Bool → Process → Call → Process × Outcome
with_lock true s c = (s, panicked)
with_lock false s c = locked s.global_state c s

unfoldable pub call : Process → Call → Process × Outcome
unfolding with_lock
call s c = with_lock s.poisoned s c

unfoldable pub run : Process → List Call → Process
unfolding call
run s [] = s
run s (c ∷ cs) = run (call s c).0 cs
