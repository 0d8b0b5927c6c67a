-- ===== src/Context/Life.antt =====
-- The annex of a context from the first slot to the end of the isolate.
use rusty_v.Base.{
  ℕ, ◌≡◌, refl, Bool-cases, inl, inr, All, true, false, ◌==◌, ==-self, List, [], ◌∷◌, ◌++◌,
  append-nil, Option, none, some, ◌>>=◌,
}
use rusty_v.Handle.Finalizers.{
  erase, lookup, remove, run_remaining_guaranteed_finalizers, drain, guaranteed_of,
}
use rusty_v.Isolate.Slots.Reference.{Store}
use rusty_v.Context.{
  FieldStore, ContextAnnex, ContextState, slot_values, annex_pointer, annex_at, without_annex,
  drop_annex, run_finalizer, second_pass, drop_each, teardown,
}
use rusty_v.Context.Promise.{
  ContextOp, slot_promises, SparesAnnex, context_steps, second_passes, context_life,
}
use rusty_v.Context.Steps.{
  IsEmbedderData, IsBoxAddress, bare, held, Shows, without, within, Keeps, step-Keeps,
}

module _ (d : FieldStore) (allocate : List (ℕ × ContextAnnex) → ℕ) where
  module _ (e : IsEmbedderData d)
      (fresh : (xs : List (ℕ × ContextAnnex)) → IsBoxAddress (allocate xs)) where
    steps_keep :
        (ops : List ContextOp)
        → All (SparesAnnex d) ops
        → (s : Store) (w : ContextState d allocate) → Shows d allocate s w
        → (after : ContextState d allocate) × (context_steps d allocate ops w
            ≡ some ((slot_promises ops s).0, after))
          × Shows d allocate (slot_promises ops s).1 after
    unfolding context_steps slot_promises Keeps
    steps_keep [] spares s w shows = (w, refl, shows)
    steps_keep (op ∷ ops) spares s w shows =
        let (next, one, shows') = step-Keeps d allocate e fresh op spares.0 s w shows in
        let (last, more, shows'') = steps_keep ops spares.1 _ next shows' in
        (last, rw (one, more) refl, shows'')

    -- The answers beside the last world.
    abbrev answered :
        List (Option ℕ)
        → ContextState d allocate
        → Option (List (Option ℕ) × ContextState d allocate)
    answered answers w = some (answers, w)

    bind_pair :
        (answers : List (Option ℕ)) (passes : Option (ContextState d allocate))
        (next : ContextState d allocate → Option (ContextState d allocate))
        (last : ContextState d allocate)
        → (passes >>= next) ≡ some last
        → (passes >>= λ collected. next collected >>= λ gone. answered answers gone)
          ≡ some (answers, last)
    bind_pair answers none next last h = cc
    bind_pair answers (some w) next last h = rw h refl

    -- The ends of a context without an annex.
    passes_bare :
        (ids : List ℕ) (f : d.State) (n : ℕ) (r : List ℕ)
        → second_passes d allocate ids (bare d allocate f n r) ≡ some (bare d allocate f n r)
    unfolding second_passes second_pass run_finalizer remove erase lookup
    passes_bare [] f n r = refl
    passes_bare (i ∷ ids) f n r = passes_bare ids f n r

    teardown-bare :
        (f : d.State) (n : ℕ) (r : List ℕ)
        → teardown d allocate (bare d allocate f n r) ≡ some (bare d allocate f 0 r)
    unfolding teardown run_remaining_guaranteed_finalizers drain guaranteed_of drop_each
    teardown-bare f n r = refl

    pass_own :
        (i a id : ℕ) (vs : List (ℕ × ℕ)) (f : d.State) (n : ℕ) (r : List ℕ)
        → (i == id) ≡ true
        → second_pass d allocate i (held d allocate a id vs f n r)
          ≡ some (bare d allocate f n (r ++ slot_values vs))
    unfolding second_pass run_finalizer remove erase lookup drop_annex annex_at without_annex
    pass_own i a id vs f n r own = rw (own, ==-self a) refl

    pass_old :
        (i a id : ℕ) (vs : List (ℕ × ℕ)) (f : d.State) (n : ℕ) (r : List ℕ)
        → (i == id) ≡ false
        → second_pass d allocate i (held d allocate a id vs f n r)
          ≡ some (held d allocate a id vs f n r)
    unfolding second_pass run_finalizer remove erase lookup
    pass_old i a id vs f n r old = rw old refl

    -- With one, each way to the end drops it.
    passes_held :
        (ids : List ℕ) (a id : ℕ) (vs : List (ℕ × ℕ)) (f : d.State) (n : ℕ) (r : List ℕ)
        → (second_passes d allocate ids (held d allocate a id vs f n r) >>= λ w.
            teardown d allocate w)
          ≡ some (bare d allocate f 0 (r ++ slot_values vs))
    unfolding second_passes teardown run_remaining_guaranteed_finalizers drain guaranteed_of
        drop_each drop_annex annex_at without_annex remove erase
    passes_held [] a id vs f n r = rw (==-self a) refl
    passes_held (i ∷ ids) a id vs f n r = elim (Bool-cases (i == id)) [
      | inl own ↦ rw (pass_own i a id vs f n r own, passes_bare ids f n (r ++ slot_values vs)) refl
      | inr old ↦ rw (pass_old i a id vs f n r old) (passes_held ids a id vs f n r)
    ]

    end_of :
        (ids : List ℕ) (s : Store) (w : ContextState d allocate)
        → Shows d allocate s w
        → (second_passes d allocate ids w >>= λ w'. teardown d allocate w')
          ≡ some (bare d allocate w.fields 0 (s.dropped ++ slot_values s.values))
    end_of ids _ _ (without f n r p) =
        rw (passes_bare ids f n r, teardown-bare f n r, append-nil) refl
    end_of ids _ _ (within a id vs f n r p nz room) = passes_held ids a id vs f n r

    -- Whatever a new context's slots and embedder data are used for, by writes to fields that V8 has room for,
    -- which spare the field of the annex, and of pointers that are aligned, and whichever second passes V8 runs after that, of old handles too, before the isolate
    -- is torn down: no box is used after it is freed and none is freed twice, nothing panics, the slots
    -- answer what a plain map from types to values answers, and at the end no box and no finalizer is
    -- left, and each value that was not taken out or replaced has been released once.
    pub context_life_lem :
        (ops : List ContextOp)
        → All (SparesAnnex d) ops
        → (ids : List ℕ) (f : d.State) (n : ℕ) → annex_pointer d allocate f ≡ 0
        → (last : d.State) × (context_life d allocate ops ids (bare d allocate f n [])
            ≡ some (
              (slot_promises ops (record { values = []; dropped = [] })).0,
              bare d allocate last 0 (
                  (slot_promises ops (record { values = []; dropped = [] })).1.dropped
                  ++ slot_values
                      (slot_promises ops (record { values = []; dropped = [] })).1.values),
            ))
    unfolding context_life
    context_life_lem ops spares ids f n p =
        let (after, used, shows) =
          steps_keep ops spares _ (bare d allocate f n []) (without f n [] p) in
        (
          after.fields,
          rw used (
              bind_pair _ (second_passes d allocate ids after) (λ w. teardown d allocate w) _
                (end_of ids _ after shows)),
        )
