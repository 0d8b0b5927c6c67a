-- ===== src/V8/Tests.antt =====
-- Runs of the lifecycle, and instances of its theorems.
use rusty_v.Base.{◌≡◌, refl, ◌≢◌, ◌↔◌, ◌⊎◌, true, false, List, [], ◌∷◌}
use rusty_v.V8.{
  platform_shutdown, initialized, Process, v8_initialize_platform, v8_initialize, panicked, Call,
  initialize_platform, initialize, dispose, dispose_platform, start, call, locked, run,
}
use rusty_v.V8.Lifecycle.{Inv, Allows, run-Inv, call_lem}

abbrev whole_life : List Call
whole_life = initialize_platform 7 ∷ initialize ∷ dispose true ∷ dispose_platform ∷ []

whole_life-run : (run start whole_life).global_state ≡ platform_shutdown
unfolding run start locked
whole_life-run = refl

-- The platform set twice.
abbrev twice : List Call
twice = initialize_platform 7 ∷ initialize_platform 8 ∷ initialize ∷ []

run-Inv_example : Inv (run start twice)
run-Inv_example = run-Inv start twice (unfold start in refl)

abbrev running : Process
running = record {
  global_state = initialized 7;
  poisoned = false;
  calls = v8_initialize_platform 7 ∷ v8_initialize ∷ [];
}

call_lem_example :
    (((call running dispose_platform).1 ≢ panicked)
      ↔ (running.poisoned ≡ false) × Allows running.global_state dispose_platform)
    × (((call running dispose_platform).1 ≢ panicked)
        ⊎ (run (call running dispose_platform).0 (dispose true ∷ [])
            ≡ (call running dispose_platform).0))
call_lem_example = call_lem running dispose_platform (dispose true ∷ [])
