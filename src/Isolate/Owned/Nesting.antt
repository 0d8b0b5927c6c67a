-- ===== src/Isolate/Owned/Nesting.antt =====
-- The order in which isolates are dropped.
use rusty_v.Base.{
  ℕ, ◌⊎◌, inl, inr, ◌≡◌, refl, ap, ◌∙◌, Bool, true, false, not, ◌&&◌, if◌then◌else◌, ◌==◌, ==→≡,
  ==-self, List, [], ◌∷◌, ◌++◌, append_assoc, append-nil, Option, none, some, ◌>>=◌,
}
use rusty_v.V8.{Process, initialized, Foreign, call, with_lock, locked}
use rusty_v.Isolate.Owned.{
  Entry, IsStack, Teardown, exited, handle_disposed, slots_dropped, finalizers_run,
  platform_notified, v8_disposed, annex_freed, OwnedIsolate, is_isolate, returned, World,
  new_isolate, drop_isolate, prepare_annex_for_dispose, finish_annex_dispose,
}

-- A process in which V8 is initialized and no call has panicked.
abbrev pub running : ℕ → List Foreign → Process
running p calls = record { global_state = initialized p; poisoned = false; calls = calls }

-- An isolate's teardown: the handle is disposed before the slots are dropped, the finalizers run
-- before and after V8's own disposal, and the annex goes last.
abbrev pub teardown_of : ℕ → List Teardown
teardown_of i =
    exited i
    ∷ handle_disposed i
    ∷ slots_dropped i
    ∷ finalizers_run i
    ∷ platform_notified i
    ∷ v8_disposed i
    ∷ finalizers_run i
    ∷ annex_freed i
    ∷ []

-- Code that makes isolates in nested scopes.
pub data Program : Type 0 where
  stop : Program
  scoped : ℕ → Program → Program → Program

abbrev pub torn_down : Program → List Teardown
torn_down stop = []
torn_down (scoped i inner rest) = torn_down inner ++ (teardown_of i ++ torn_down rest)

-- The log of a drop, as the code appends to it.
abbrev dropped_log : ℕ → List Teardown → List Teardown
dropped_log i log = finish_annex_dispose i (
    prepare_annex_for_dispose i (log ++ (exited i ∷ []))
    ++ (finalizers_run i ∷ platform_notified i ∷ v8_disposed i ∷ []))

dropped_log_lem : (i : ℕ) (log : List Teardown) → dropped_log i log ≡ log ++ teardown_of i
unfolding prepare_annex_for_dispose finish_annex_dispose
dropped_log_lem i [] = refl
dropped_log_lem i (t ∷ log) = ap (λ l. t ∷ l) (dropped_log_lem i log)

nested_log :
    (log inner own rest : List Teardown)
    → ((log ++ inner) ++ own) ++ rest ≡ log ++ (inner ++ (own ++ rest))
nested_log log inner own rest =
    append_assoc (log ++ inner) own rest ∙ append_assoc log inner (own ++ rest)

module _ (entry : Entry) where
  unfoldable pub run_program : Program → World entry → Option (World entry)
  run_program stop w = some w
  run_program (scoped i inner rest) w = do
    made ← new_isolate entry i w
    after ← run_program inner made
    dropped ← drop_isolate entry (record { cxx_isolate = i; has_snapshot_creator = false }) after
    run_program rest dropped

  new_isolate_lem :
      (i p : ℕ) (calls : List Foreign) (s : entry.State) (log : List Teardown)
      → new_isolate entry i (record { process = running p calls; thread = s; log = log })
        ≡ some (record { process = running p calls; thread = entry.enter i s; log = log })
  unfolding new_isolate returned call with_lock locked
  new_isolate_lem i p calls s log = refl

  module _ (laws : IsStack entry) where
    drop_newest :
        (newest p : ℕ) (calls : List Foreign) (s : entry.State) (log : List Teardown)
        → drop_isolate entry
            (record { cxx_isolate = newest; has_snapshot_creator = false })
            (record { process = running p calls; thread = entry.enter newest s; log = log })
          ≡ some (record { process = running p calls; thread = s; log = log ++ teardown_of newest })
    unfolding drop_isolate returned call with_lock locked is_isolate
    drop_newest newest p calls s log =
        rw
          (
            laws.current-enter newest s,
            ==-self newest,
            laws.exit-enter newest s,
            dropped_log_lem newest log,
          )
          refl

    dropped :
        (o : OwnedIsolate) (newest p : ℕ) (calls : List Foreign) (s : entry.State)
        (log : List Teardown)
        → o.has_snapshot_creator ≡ false
        → (newest == o.cxx_isolate) ≡ true
        → drop_isolate entry o
            (record { process = running p calls; thread = entry.enter newest s; log = log })
          ≡ some (record { process = running p calls; thread = s; log = log ++ teardown_of newest })
    unfolding drop_isolate returned call with_lock locked is_isolate
    dropped o newest p calls s log none_left same =
        rw
          (
            none_left,
            ← ==→≡ newest o.cxx_isolate same,
            laws.current-enter newest s,
            ==-self newest,
            laws.exit-enter newest s,
            dropped_log_lem newest log,
          )
          refl

    -- The two assertions of a drop.
    refused :
        (o : OwnedIsolate) (b : Bool) (newest p : ℕ) (calls : List Foreign) (s : entry.State)
        (log : List Teardown)
        → o.has_snapshot_creator ≡ b
        → (b ≡ true) ⊎ ((newest == o.cxx_isolate) ≡ false)
        → drop_isolate entry o
            (record { process = running p calls; thread = entry.enter newest s; log = log })
          ≡ none
    unfolding drop_isolate is_isolate
    refused o true newest p calls s log e h = rw e refl
    refused o false newest p calls s log e (inl h) = cc
    refused o false newest p calls s log e (inr h) = rw (e, laws.current-enter newest s, h) refl

    -- In a running process, an isolate that is the one that was entered last, and in whose annex no
    -- snapshot creator waits, can be dropped: the drop restores what was entered before and tears the
    -- isolate down in the documented order. Any other drop panics.
    pub drop_isolate_lem :
        (o : OwnedIsolate) (newest p : ℕ) (calls : List Foreign) (s : entry.State)
        (log : List Teardown)
        → drop_isolate entry o
            (record { process = running p calls; thread = entry.enter newest s; log = log })
          ≡ (if newest == o.cxx_isolate && not o.has_snapshot_creator
              then some (record {
                process = running p calls;
                thread = s;
                log = log ++ teardown_of newest;
              })
              else none)
    drop_isolate_lem o newest p calls s log =
        by_fields o.has_snapshot_creator (newest == o.cxx_isolate) refl refl
      where
        by_fields :
            (b c : Bool)
            → o.has_snapshot_creator ≡ b
            → (newest == o.cxx_isolate) ≡ c
            → drop_isolate entry o
                (record { process = running p calls; thread = entry.enter newest s; log = log })
              ≡ (if c && not b
                  then some (record {
                    process = running p calls;
                    thread = s;
                    log = log ++ teardown_of newest;
                  })
                  else none)
        by_fields true true e f = refused o true newest p calls s log e (inl refl)
        by_fields true false e f = refused o true newest p calls s log e (inl refl)
        by_fields false false e f = refused o false newest p calls s log e (inr f)
        by_fields false true e f = dropped o newest p calls s log e f

    -- In a running process, isolates in nested scopes never panic: the thread's entered isolates at the end are those of the
    -- beginning, and each isolate is torn down once, inner ones before the isolate that they are in.
    pub run_program_lem :
        (program : Program) (p : ℕ) (calls : List Foreign) (s : entry.State) (log : List Teardown)
        → run_program program (record { process = running p calls; thread = s; log = log })
          ≡ some (record { process = running p calls; thread = s; log = log ++ torn_down program })
    unfolding run_program
    run_program_lem stop p calls s log = rw append-nil refl
    run_program_lem (scoped i inner rest) p calls s log =
        let within = run_program_lem inner p calls (entry.enter i s) log in
        let dropping = drop_newest i p calls s (log ++ torn_down inner) in
        let after = run_program_lem rest p calls s ((log ++ torn_down inner) ++ teardown_of i) in
        rw
          (
            new_isolate_lem i p calls s log,
            within,
            dropping,
            after,
            nested_log log (torn_down inner) (teardown_of i) (torn_down rest),
          )
          refl
