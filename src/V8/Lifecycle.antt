-- ===== src/V8/Lifecycle.antt =====
-- The lifecycle: what a process can have asked of the C++ library.
use rusty_v.Base.{ℕ, ◌≡◌, refl, ◌∙◌, ap, ◌≢◌, Bool, true, false, List, [], ◌∷◌, ◌↔◌, ◌⊎◌, inl, inr}
use rusty_v.V8.{
  GlobalState, uninitialized, platform_initialized, initialized, disposed, platform_shutdown,
  Foreign, v8_initialize_platform, v8_initialize, v8_dispose, v8_dispose_platform, Process, Outcome,
  panicked, Call, initialize_platform, initialize, assert_initialized, get_current_platform,
  dispose, dispose_platform, with_lock, call, locked, run,
}

-- The calls behind each state.
abbrev pub Asked : GlobalState → List Foreign → Type 0
Asked uninitialized calls = calls ≡ []
Asked (platform_initialized p) calls = calls ≡ v8_initialize_platform p ∷ []
Asked (initialized p) calls = calls ≡ v8_initialize_platform p ∷ v8_initialize ∷ []
Asked (disposed p) calls = calls ≡ v8_initialize_platform p ∷ v8_initialize ∷ v8_dispose ∷ []
Asked platform_shutdown calls =
    (p : ℕ) × (calls
      ≡ v8_initialize_platform p ∷ v8_initialize ∷ v8_dispose ∷ v8_dispose_platform ∷ [])

abbrev pub Inv : Process → Type 0
Inv s = Asked s.global_state s.calls

-- `g` is the state that the code matches on.
locked-Inv :
    (g : GlobalState) (c : Call) (s : Process)
    → s.global_state ≡ g
    → Asked g s.calls
    → Inv (locked g c s).0
unfolding locked
locked-Inv uninitialized (initialize_platform p) s e a = rw a
locked-Inv (platform_initialized p) initialize s e a = rw a
locked-Inv (initialized p) (dispose true) s e a = rw a
locked-Inv (initialized p) (dispose false) s e a = rw a
locked-Inv (disposed p) dispose_platform s e a = (p, rw a)
locked-Inv _ _ s e a = rw e a

with_lock-Inv : (b : Bool) (s : Process) (c : Call) → Inv s → Inv (with_lock b s c).0
unfolding with_lock
with_lock-Inv true s c a = a
with_lock-Inv false s c a = locked-Inv s.global_state c s refl a

call-Inv : (s : Process) (c : Call) → Inv s → Inv (call s c).0
unfolding call
call-Inv s c a = with_lock-Inv s.poisoned s c a

-- Whatever the calls, with panics and after them, from a state where this holds: C++ has been asked for a part of the sequence
-- initialize platform, initialize, dispose, dispose platform, each once and in that order, and the
-- state says which part.
pub run-Inv : (s : Process) (cs : List Call) → Inv s → Inv (run s cs)
unfolding run
run-Inv s [] a = a
run-Inv s (c ∷ cs) a = run-Inv (call s c).0 cs (call-Inv s c a)

-- The states in which a function does not panic.
abbrev pub Allows : GlobalState → Call → Type 0
Allows (initialized p) assert_initialized = Unit
Allows uninitialized (initialize_platform p) = Unit
Allows (platform_initialized p) initialize = Unit
Allows (initialized p) get_current_platform = Unit
Allows (initialized p) (dispose true) = Unit
Allows (disposed p) dispose_platform = Unit
Allows _ _ = ⊥

locked_panics_iff :
    (g : GlobalState) (c : Call) (s : Process) → ((locked g c s).1 ≢ panicked) ↔ Allows g c
unfolding locked
locked_panics_iff (initialized p) assert_initialized s = (λ _. tt, λ _ e. cc)
locked_panics_iff uninitialized (initialize_platform p) s = (λ _. tt, λ _ e. cc)
locked_panics_iff (platform_initialized p) initialize s = (λ _. tt, λ _ e. cc)
locked_panics_iff (initialized p) get_current_platform s = (λ _. tt, λ _ e. cc)
locked_panics_iff (initialized p) (dispose true) s = (λ _. tt, λ _ e. cc)
locked_panics_iff (disposed p) dispose_platform s = (λ _. tt, λ _ e. cc)
locked_panics_iff _ _ s = (λ h. h refl, λ a. absurd a)

locked_poisons :
    (g : GlobalState) (c : Call) (s : Process)
    → s.poisoned ≡ false
    → ((locked g c s).1 ≡ panicked) ↔ ((locked g c s).0.poisoned ≡ true)
unfolding locked
locked_poisons (initialized p) assert_initialized s f = (λ e. cc, λ e. cc)
locked_poisons uninitialized (initialize_platform p) s f = (λ e. cc, λ e. cc)
locked_poisons (platform_initialized p) initialize s f = (λ e. cc, λ e. cc)
locked_poisons (initialized p) get_current_platform s f = (λ e. cc, λ e. cc)
locked_poisons (initialized p) (dispose true) s f = (λ e. cc, λ e. cc)
locked_poisons (disposed p) dispose_platform s f = (λ e. cc, λ e. cc)
locked_poisons _ _ s f = (λ e. refl, λ e. refl)

with_lock_panics_iff :
    (b : Bool) (s : Process) (c : Call)
    → ((with_lock b s c).1 ≢ panicked) ↔ (b ≡ false) × Allows s.global_state c
unfolding with_lock
with_lock_panics_iff true s c = (λ h. absurd (h refl), λ (e, _). cc)
with_lock_panics_iff false s c =
    let (to, from) = locked_panics_iff s.global_state c s in (λ h. (refl, to h), λ (_, a). from a)

call_panics_iff :
    (s : Process) (c : Call)
    → ((call s c).1 ≢ panicked) ↔ (s.poisoned ≡ false) × Allows s.global_state c
unfolding call
call_panics_iff s c = with_lock_panics_iff s.poisoned s c

with_lock_poisons :
    (b : Bool) (s : Process) (c : Call)
    → s.poisoned ≡ b
    → ((with_lock b s c).1 ≡ panicked) ↔ ((with_lock b s c).0.poisoned ≡ true)
unfolding with_lock
with_lock_poisons true s c e = (λ _. e, λ _. refl)
with_lock_poisons false s c e = locked_poisons s.global_state c s e

call_of_poisoned : (b : Bool) (s : Process) (c : Call) → b ≡ true → with_lock b s c ≡ (s, panicked)
unfolding with_lock
call_of_poisoned true s c e = refl
call_of_poisoned false s c e = cc

run_of_poisoned : (s : Process) (cs : List Call) → s.poisoned ≡ true → run s cs ≡ s
unfolding run call
run_of_poisoned s [] p = refl
run_of_poisoned s (c ∷ cs) p =
    ap (λ (r : Process × Outcome). run r.0 cs) (call_of_poisoned s.poisoned s c p)
    ∙ run_of_poisoned s cs p

run_after_panic :
    (s : Process) (c : Call) (cs : List Call)
    → (call s c).1 ≡ panicked
    → run (call s c).0 cs ≡ (call s c).0
unfolding call
run_after_panic s c cs e =
    run_of_poisoned (call s c).0 cs ((with_lock_poisons s.poisoned s c refl).0 e)

-- A function returns just on a mutex that is not poisoned and in the one state that it asks for
-- (`dispose` only if V8 answers true); in all others it panics, and that is the last change: the state
-- and the calls to C++ then stay as they are, whatever is called.
pub call_lem :
    (s : Process) (c : Call) (cs : List Call)
    → (((call s c).1 ≢ panicked) ↔ (s.poisoned ≡ false) × Allows s.global_state c)
      × (((call s c).1 ≢ panicked) ⊎ (run (call s c).0 cs ≡ (call s c).0))
call_lem s c cs = (call_panics_iff s c, by_outcome (call s c).1 refl)
  where
    by_outcome :
        (o : Outcome)
        → (call s c).1 ≡ o
        → ((call s c).1 ≢ panicked) ⊎ (run (call s c).0 cs ≡ (call s c).0)
    by_outcome panicked e = inr (run_after_panic s c cs e)
    by_outcome o e = inl (λ p. cc)
