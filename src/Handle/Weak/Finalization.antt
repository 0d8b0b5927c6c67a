-- ===== src/Handle/Weak/Finalization.antt =====
-- What a weak handle promises about its finalizer and its data.
use rusty_v.Base.{
  ℕ, ◌+◌, ◌<◌, ◌≡◌, refl, sym, subst, ◌≢◌, Bool, true, false, List, [], ◌∷◌, ◌++◌, Option, none,
  some, arith, ◌⊎◌, inl, inr, if◌then◌else◌,
}
use rusty_v.Handle.Finalizers.{FinalizerCallback, FinalizerMap, usize_values, add, remove, erase}
use rusty_v.Handle.Weak.{
  from_raw, into_raw, has_finalizer, is_some, held, as_raw, gone, WeakState, create, clone_raw,
  get_pointer, Event, weak_drop, weak_into_raw, weak_from_raw, first_pass, second_pass, other_add,
  other_remove, dispose_handle, step, is_held, is_raw, drop_weak, reset, free, remove_finalizer,
  first_pass_callback, second_pass_callback, new_raw, empty, run,
}
use rusty_v.Handle.Finalizers.Entries.{lookup-add, lookup-erase}
use rusty_v.Handle.Weak.Phases.{
  Own, once, Phase, alive, waiting, collected, leaked, over, gone_not_held,
}
use rusty_v.Handle.Weak.Lifetime.{
  add-less, HasRoom, HasRoom-lt, step-Lands, run-Phase, create-Phase, own_of,
}

abbrev pub called : Option FinalizerCallback → List FinalizerCallback
called none = []
called (some c) = c ∷ []

-- The finalizer has been called at most once; and a handle that its owner has given up and that V8
-- has no pass left for is freed, and reset in V8.
abbrev pub IsCorrect : List FinalizerCallback → WeakState → Type 0
IsCorrect calls s =
    ((s.ran ≡ []) ⊎ (s.ran ≡ calls))
    × (s.weak ≡ gone → s.pending ≡ false → (s.freed ≡ true) × (s.armed ≡ false))

Phase-IsCorrect : (o : Own) (s : WeakState) → Phase o s → IsCorrect (once o) s
Phase-IsCorrect _ _ (alive o m held w r) = (inl refl, λ g. absurd (gone_not_held (sym g)))
Phase-IsCorrect _ _ (alive o m as_raw w r) = (inl refl, λ g. cc)
Phase-IsCorrect _ _ (alive o m gone w r) = absurd w
Phase-IsCorrect _ _ (waiting id c m h w r) = (inl refl, λ g p. cc)
Phase-IsCorrect _ _ (collected o m held w r) = (inr refl, λ g. absurd (gone_not_held (sym g)))
Phase-IsCorrect _ _ (collected o m as_raw w r) = (inr refl, λ g. cc)
Phase-IsCorrect _ _ (collected o m gone w r) = absurd w
Phase-IsCorrect _ _ (leaked id c m r) = (inl refl, λ g p. cc)
Phase-IsCorrect _ _ (over o m p d ran h r) = (h, λ g e. (refl, refl))

once-own_of : (c : Option FinalizerCallback) (m : FinalizerMap) → once (own_of c m) ≡ called c
once-own_of none m = refl
once-own_of (some c) m = refl

-- Whatever the owner, V8 and the other handles do with a new handle while the isolate is live, in any
-- order, as long as the ids of finalizers do not reach 2^64: no step uses or frees freed data, resets
-- a handle twice or panics. At the end the handle's finalizer has been called at most once and no
-- other has been called for it, and a handle that was dropped and that V8 has no pass left for has
-- been freed and reset.
pub run-create :
    (c : Option FinalizerCallback) (m : FinalizerMap) (es : List Event)
    → 1 + m.next_id < usize_values
    → HasRoom es (create c m).finalizers.next_id
    → (s : WeakState) × (run es (create c m) ≡ some s) × IsCorrect (called c) s
run-create c m es less room =
    let (s, e, p) = run-Phase (own_of c m) es (create c m) room (create-Phase c m less) in
    (s, e, subst (λ l. IsCorrect l s) (once-own_of c m) (Phase-IsCorrect _ s p))

-- What can happen between the two passes when the owner does not drop the handle.
abbrev pub IsBetween : Event → Type 0
IsBetween (other_add c) = Unit
IsBetween (other_remove k) = Unit
IsBetween weak_into_raw = Unit
IsBetween weak_from_raw = Unit
IsBetween _ = ⊥

abbrev pub AllBetween : List Event → Type 0
AllBetween [] = Unit
AllBetween (e ∷ es) = IsBetween e × AllBetween es

false_not_true : false ≢ true
false_not_true e = cc

between-step :
    (o : Own) (e : Event) (s s' : WeakState)
    → IsBetween e
    → Phase o s
    → s.pending ≡ true
    → s.weak_dropped ≡ false
    → step e s ≡ some s'
    → (s'.pending ≡ true) × (s'.weak_dropped ≡ false)
unfolding step is_held is_raw from_raw into_raw has_finalizer free is_some
between-step o (other_add c) s s' b p w d q = ground arith
between-step o (other_remove k) s s' b p w d q = ground arith
between-step o weak_from_raw s s' b p w d q = ground arith
between-step _ weak_into_raw _ s' b (waiting id c m held i (r, _)) w d q = ground arith
between-step _ weak_into_raw _ s' b (waiting id c m as_raw i (r, _)) w d q = ground arith
between-step _ weak_into_raw _ s' b (waiting id c m gone i (r, _)) w d q = absurd i
between-step _ weak_into_raw _ s' b (alive o m h i r) w d q = absurd (false_not_true w)
between-step _ weak_into_raw _ s' b (collected o m h i r) w d q = absurd (false_not_true w)
between-step _ weak_into_raw _ s' b (leaked id c m r) w d q = absurd (false_not_true (sym d))
between-step _ weak_into_raw _ s' b (over o m x y ran h r) w d q = absurd (false_not_true w)
between-step o _ s s' b p w d q = absurd b

waiting-finalizes :
    (id : ℕ) (c : FinalizerCallback) (s : WeakState)
    → Phase (some (id, c)) s
    → s.pending ≡ true
    → s.weak_dropped ≡ false
    → (s' : WeakState) × (run (second_pass ∷ []) s ≡ some s') × (s'.ran ≡ c ∷ [])
unfolding run step second_pass_callback free remove
waiting-finalizes id c _ (waiting _ _ m h i (r, _)) w d = (
  record {
    isolate_ptr = true;
    finalizers = record m { map = erase id m.map };
    pointer = false;
    finalizer_id = some id;
    weak_dropped = false;
    freed = false;
    weak = h;
    armed = false;
    pending = false;
    ran = c ∷ [];
  },
  rw r,
  refl,
)
waiting-finalizes id c _ (alive o m h i r) w d = absurd (false_not_true w)
waiting-finalizes id c _ (collected o m h i r) w d = absurd (false_not_true w)
waiting-finalizes id c _ (leaked _ _ m r) w d = absurd (false_not_true (sym d))
waiting-finalizes id c _ (over o m x y ran h r) w d = absurd (false_not_true w)

between-run :
    (id : ℕ) (c : FinalizerCallback) (es : List Event) (s : WeakState)
    → HasRoom es s.finalizers.next_id
    → AllBetween es
    → Phase (some (id, c)) s
    → s.pending ≡ true
    → s.weak_dropped ≡ false
    → (s' : WeakState) × (run (es ++ (second_pass ∷ [])) s ≡ some s') × (s'.ran ≡ c ∷ [])
unfolding run
between-run id c [] s room a p w d = waiting-finalizes id c s p w d
between-run id c (e ∷ es) s (l, room) (b, a) p w d =
    let (s', q, n, p') = step-Lands (some (id, c)) e s l (HasRoom-lt es _ room) p in
    let (w', d') = between-step (some (id, c)) e s s' b p w d q in
    let (s'', q', r) = between-run id c es s' (subst (HasRoom es) (sym n) room) a p' w' d' in
    (s'', rw q q', r)

-- When V8 collects the value of a new handle whose owner does not drop it before the second pass, the
-- finalizer is called, once, whatever the other handles do between the passes and also when the
-- owner turns the handle into a raw pointer or back.
pub collected_runs :
    (c : FinalizerCallback) (m : FinalizerMap) (es : List Event)
    → 1 + m.next_id < usize_values
    → HasRoom es (create (some c) m).finalizers.next_id
    → AllBetween es
    → (s : WeakState) × (run (first_pass ∷ (es ++ (second_pass ∷ []))) (create (some c) m) ≡ some s)
      × (s.ran ≡ c ∷ [])
unfolding run step create new_raw add first_pass_callback reset
collected_runs c m es less room a =
    between-run m.next_id c es _ room a
      (waiting m.next_id c (add c m).1 held tt (lookup-add c m, add-less c m less)) refl refl

-- A drop after the isolate's handle is disposed frees the data, and V8 keeps what it has of it.
abbrev pub IsDangling : WeakState → WeakState → Type 0
IsDangling s s' =
    (s'.weak ≡ gone)
    × (s'.freed ≡ true)
    × (s'.armed ≡ s.armed)
    × (s'.pending ≡ s.pending)
    × (s'.ran ≡ s.ran)
    × (step first_pass s' ≡ (if s.armed then none else some s'))
    × (step second_pass s' ≡ (if s.pending then none else some s'))

disposed_drop :
    (o : Own) (s : WeakState)
    → Phase o s
    → s.weak ≡ held
    → (s' : WeakState) × (run (dispose_handle ∷ weak_drop ∷ []) s ≡ some s') × IsDangling s s'
unfolding run step is_held drop_weak get_pointer remove_finalizer free first_pass_callback
    second_pass_callback
disposed_drop _ _ (alive none m held w r) e = (_, refl, (refl, refl, refl, refl, refl, refl, refl))
disposed_drop _ _ (alive (some (id, c)) m held w r) e =
    (_, refl, (refl, refl, refl, refl, refl, refl, refl))
disposed_drop _ _ (waiting id c m held w r) e =
    (_, refl, (refl, refl, refl, refl, refl, refl, refl))
disposed_drop _ _ (collected none m held w r) e =
    (_, refl, (refl, refl, refl, refl, refl, refl, refl))
disposed_drop _ _ (collected (some (id, c)) m held w r) e =
    (_, refl, (refl, refl, refl, refl, refl, refl, refl))
disposed_drop _ _ (alive o m as_raw w r) e = cc
disposed_drop _ _ (alive o m gone w r) e = absurd w
disposed_drop _ _ (waiting id c m as_raw w r) e = cc
disposed_drop _ _ (waiting id c m gone w r) e = absurd w
disposed_drop _ _ (collected o m as_raw w r) e = cc
disposed_drop _ _ (collected o m gone w r) e = absurd w
disposed_drop _ _ (leaked id c m r) e = absurd (gone_not_held e)
disposed_drop _ _ (over o m p d ran h r) e = absurd (gone_not_held e)

-- The other order: the passes that V8 still has come after the drop and the disposal.
dropped_first :
    (o : Own) (s : WeakState)
    → Phase o s
    → s.weak ≡ held
    → (s' : WeakState) × (run (weak_drop ∷ dispose_handle ∷ first_pass ∷ second_pass ∷ []) s
        ≡ some s')
      × (s'.freed ≡ true)
      × (s'.armed ≡ false)
unfolding run step is_held drop_weak get_pointer reset remove_finalizer free first_pass_callback
    second_pass_callback remove is_some
dropped_first _ _ (alive none m held w r) e = (_, refl, refl, refl)
dropped_first _ _ (alive (some (id, c)) m held w r) e = (_, refl, refl, refl)
dropped_first _ _ (waiting id c m held w r) e = (
  record {
    isolate_ptr = false;
    finalizers = record m { map = erase id (erase id m.map) };
    pointer = false;
    finalizer_id = some id;
    weak_dropped = true;
    freed = true;
    weak = gone;
    armed = false;
    pending = false;
    ran = [];
  },
  rw (r.0, lookup-erase id m.map) refl,
  refl,
  refl,
)
dropped_first _ _ (collected none m held w r) e = (_, refl, refl, refl)
dropped_first _ _ (collected (some (id, c)) m held w r) e = (
  record {
    isolate_ptr = false;
    finalizers = record m { map = erase id m.map };
    pointer = false;
    finalizer_id = some id;
    weak_dropped = false;
    freed = true;
    weak = gone;
    armed = false;
    pending = false;
    ran = c ∷ [];
  },
  rw r.0 refl,
  refl,
  refl,
)
dropped_first _ _ (alive o m as_raw w r) e = cc
dropped_first _ _ (alive o m gone w r) e = absurd w
dropped_first _ _ (waiting id c m as_raw w r) e = cc
dropped_first _ _ (waiting id c m gone w r) e = absurd w
dropped_first _ _ (collected o m as_raw w r) e = cc
dropped_first _ _ (collected o m gone w r) e = absurd w
dropped_first _ _ (leaked id c m r) e = absurd (gone_not_held e)
dropped_first _ _ (over o m p d ran h r) e = absurd (gone_not_held e)

-- A handle that its owner still holds, after whatever has happened to it while the isolate was live: if it
-- is dropped after its isolate's handle is disposed, the drop does not fail and frees its data, but
-- resets nothing, and each pass of V8 that is still to come uses freed data: the first where V8 has not
-- collected the value, the second where it waits. Dropped before that, neither the drop nor a pass fails,
-- and the data are freed and the handle is reset.
pub drop_in_teardown :
    (c : Option FinalizerCallback) (m : FinalizerMap) (es : List Event) (s : WeakState)
    → 1 + m.next_id < usize_values
    → HasRoom es (create c m).finalizers.next_id
    → run es (create c m) ≡ some s
    → s.weak ≡ held
    → ((s' : WeakState) × (run (dispose_handle ∷ weak_drop ∷ []) s ≡ some s') × IsDangling s s')
      × ((s' : WeakState) × (run (weak_drop ∷ dispose_handle ∷ first_pass ∷ second_pass ∷ []) s
            ≡ some s')
          × (s'.freed ≡ true)
          × (s'.armed ≡ false))
drop_in_teardown c m es s less room reached h =
    let (s₁, e, p) = run-Phase (own_of c m) es (create c m) room (create-Phase c m less) in
    let same : s₁ ≡ s = cc in
    let phase = subst (Phase (own_of c m)) same p in
    (disposed_drop (own_of c m) s phase h, dropped_first (own_of c m) s phase h)

-- A branch with the tests of `clone_raw`.
clone_branch :
    (b p : Bool) (x y : WeakState)
    → x.isolate_ptr ≡ b
    → x.pointer ≡ true
    → y.isolate_ptr ≡ b
    → y.pointer ≡ false
    → (s : WeakState) × ((if if b then p else false then (if b then some x else none) else some y)
        ≡ some s)
      × ((if s.isolate_ptr then s.pointer else false) ≡ (if b then p else false))
clone_branch true true x y e f g h = (x, refl, ground arith)
clone_branch true false x y e f g h = (y, refl, ground arith)
clone_branch false p x y e f g h = (y, refl, ground arith)

-- `clone_raw` of a handle, with a finalizer or without, does not panic; the clone is empty just when
-- the handle is.
pub clone_raw_lem :
    (c : Option FinalizerCallback) (s : WeakState)
    → (s' : WeakState) × (clone_raw c s ≡ some s') × (get_pointer s' ≡ get_pointer s)
unfolding clone_raw get_pointer new_raw empty
clone_raw_lem none s = clone_branch s.isolate_ptr s.pointer _ _ refl refl refl refl
clone_raw_lem (some c) s = clone_branch s.isolate_ptr s.pointer _ _ refl refl refl refl
