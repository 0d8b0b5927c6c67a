-- ===== src/Handle/Weak/Lifetime.antt =====
-- Whatever happens while the isolate is live, in any order.
use rusty_v.Base.{
  ℕ, ◌+◌, ◌<◌, ◌≡◌, refl, sym, subst, ◌∙◌, Bool, true, false, if◌then◌else◌, ==→≢, ap, List, [],
  ◌∷◌, Option, none, some, arith,
}
use rusty_v.Handle.Finalizers.{FinalizerCallback, FinalizerMap, usize_values, add, remove}
use rusty_v.Handle.Finalizers.Entries.{lookup-erase_other, lookup-add, lookup-add_other}
use rusty_v.Handle.Weak.{
  Holder, held, as_raw, WeakState, create, Event, weak_drop, weak_into_raw, weak_from_raw,
  first_pass, second_pass, other_add, other_remove, dispose_handle, drain_finalizers, step, is_held,
  is_raw, owns, new_raw, run,
}
use rusty_v.Handle.Weak.Phases.{
  Own, id_of, IsEntry, Phase, alive, waiting, collected, leaked, over, Lands, drop-Lands,
  into_raw-Lands, from_raw-Lands, first_pass-Lands, second_pass-Lands,
}

-- The teardown of the isolate is not among the events, and each addition of a finalizer takes an id.
abbrev pub IsLive : Event → Type 0
IsLive dispose_handle = ⊥
IsLive drain_finalizers = ⊥
IsLive _ = Unit

abbrev pub next_after : Event → ℕ → ℕ
next_after (other_add c) n = 1 + n
next_after _ n = n

abbrev pub HasRoom : List Event → ℕ → Type 0
HasRoom [] next_id = next_id < usize_values
HasRoom (e ∷ es) next_id = IsLive e × HasRoom es (next_after e next_id)

pub HasRoom-lt : (es : List Event) (n : ℕ) → HasRoom es n → n < usize_values
HasRoom-lt [] n h = h
HasRoom-lt (e ∷ es) n (l, h) = before e (HasRoom-lt es (next_after e n) h)
  where
    before : (e : Event) → next_after e n < usize_values → n < usize_values
    before (other_add c) h = omega arith
    before weak_drop h = h
    before weak_into_raw h = h
    before weak_from_raw h = h
    before first_pass h = h
    before second_pass h = h
    before (other_remove k) h = h
    before dispose_handle h = h
    before drain_finalizers h = h

pub add-less :
    (c : FinalizerCallback) (m : FinalizerMap)
    → 1 + m.next_id < usize_values
    → m.next_id < (add c m).1.next_id
unfolding add
add-less c m room = ground arith

-- Another handle's traffic leaves a handle's entry as it is.
abbrev Keeps : Own → FinalizerMap → FinalizerMap → Type 0
Keeps none m m' = Unit
Keeps (some (id, c)) m m' =
    (found : Option FinalizerCallback) → IsEntry found id m → IsEntry found id m'

Phase-map :
    (o : Own) (s : WeakState) (m : FinalizerMap)
    → Keeps o s.finalizers m
    → Phase o s
    → Phase o (record s { finalizers = m })
Phase-map _ _ m k (alive none _ h w r) = alive none m h w tt
Phase-map _ _ m k (alive (some (id, c)) _ h w r) = alive (some (id, c)) m h w (k (some c) r)
Phase-map _ _ m k (waiting id c _ h w r) = waiting id c m h w (k (some c) r)
Phase-map _ _ m k (collected none _ h w r) = collected none m h w tt
Phase-map _ _ m k (collected (some (id, c)) _ h w r) = collected (some (id, c)) m h w (k none r)
Phase-map _ _ m k (leaked id c _ r) = leaked id c m (k none r)
Phase-map _ _ m k (over none _ p d ran h r) = over none m p d ran h tt
Phase-map _ _ m k (over (some (id, c)) _ p d ran h r) = over (some (id, c)) m p d ran h (k none r)

Phase-id : (o : Own) (s : WeakState) → Phase o s → s.finalizer_id ≡ id_of o
Phase-id _ _ (alive o m h w r) = refl
Phase-id _ _ (waiting id c m h w r) = refl
Phase-id _ _ (collected o m h w r) = refl
Phase-id _ _ (leaked id c m r) = refl
Phase-id _ _ (over o m p d ran h r) = refl

add-Keeps :
    (o : Own) (c : FinalizerCallback) (m : FinalizerMap)
    → 1 + m.next_id < usize_values
    → (Keeps o m (add c m).1) × ((add c m).1.next_id ≡ 1 + m.next_id)
unfolding add
add-Keeps none c m room = (tt, ground arith)
add-Keeps (some (id, _)) c m room =
    (λ found (e, less). (lookup-add_other id c m less ∙ e, ground arith), ground arith)

remove-Keeps :
    (o : Own) (k : ℕ) (m : FinalizerMap) → owns (id_of o) k ≡ false → Keeps o m (remove k m).1
unfolding remove owns
remove-Keeps none k m e = tt
remove-Keeps (some (id, _)) k m e =
    λ found (f, less). (lookup-erase_other id k m.map (==→≢ _ _ e) ∙ f, less)

guarded :
    (b : Bool) (o : Own) (s : WeakState) (r : Option WeakState)
    → Phase o s
    → (b ≡ true → Lands o s r)
    → Lands o s (if b then r else some s)
guarded true o s r p h = h refl
guarded false o s r p h = (s, refl, refl, p)

is_held_lem : (h : Holder) → is_held h ≡ true → h ≡ held
unfolding is_held
is_held_lem h e = ground arith

is_raw_lem : (h : Holder) → is_raw h ≡ true → h ≡ as_raw
unfolding is_raw
is_raw_lem h e = ground arith

removed-Lands :
    (b : Bool) (o : Own) (s : WeakState) (k : ℕ)
    → owns (id_of o) k ≡ b
    → Phase o s
    → Lands o s (if b then some s else some (record s { finalizers = (remove k s.finalizers).1 }))
unfolding remove
removed-Lands true o s k e p = (s, refl, refl, p)
removed-Lands false o s k e p = (_, refl, refl, Phase-map o s _ (remove-Keeps o k s.finalizers e) p)

pub step-Lands :
    (o : Own) (e : Event) (s : WeakState)
    → IsLive e
    → next_after e s.finalizers.next_id < usize_values
    → Phase o s
    → (s' : WeakState) × (step e s ≡ some s')
      × (s'.finalizers.next_id ≡ next_after e s.finalizers.next_id)
      × Phase o s'
unfolding step
step-Lands o weak_drop s l room p =
    guarded (is_held s.weak) o s _ p λ h. drop-Lands o s p (is_held_lem s.weak h)
step-Lands o weak_into_raw s l room p =
    guarded (is_held s.weak) o s _ p λ h. into_raw-Lands o s p (is_held_lem s.weak h)
step-Lands o weak_from_raw s l room p =
    guarded (is_raw s.weak) o s _ p λ h. from_raw-Lands o s p (is_raw_lem s.weak h)
step-Lands o first_pass s l room p = guarded s.armed o s _ p λ h. first_pass-Lands o s p h
step-Lands o second_pass s l room p = guarded s.pending o s _ p λ h. second_pass-Lands o s p h
step-Lands o (other_add c) s l room p =
    let (k, e) = add-Keeps o c s.finalizers room in (_, refl, e, Phase-map o s _ k p)
step-Lands o (other_remove k) s l room p =
    removed-Lands (owns s.finalizer_id k) o s k (ap (λ i. owns i k) (sym (Phase-id o s p))) p
step-Lands o dispose_handle s l room p = absurd l
step-Lands o drain_finalizers s l room p = absurd l

pub run-Phase :
    (o : Own) (es : List Event) (s : WeakState)
    → HasRoom es s.finalizers.next_id
    → Phase o s
    → (s' : WeakState) × (run es s ≡ some s') × Phase o s'
unfolding run
run-Phase o [] s room p = (s, refl, p)
run-Phase o (e ∷ es) s (l, room) p =
    let (s', d, n, p') = step-Lands o e s l (HasRoom-lt es _ room) p in
    let (s'', d', p'') = run-Phase o es s' (subst (HasRoom es) (sym n) room) p' in
    (s'', rw d d', p'')

-- A new handle is in the first of the phases.
abbrev pub own_of : Option FinalizerCallback → FinalizerMap → Own
own_of none m = none
own_of (some c) m = some (m.next_id, c)

pub create-Phase :
    (c : Option FinalizerCallback) (m : FinalizerMap)
    → 1 + m.next_id < usize_values
    → Phase (own_of c m) (create c m)
unfolding create new_raw add
create-Phase none m room = alive none m held tt tt
create-Phase (some c) m room =
    alive (some (m.next_id, c)) (add c m).1 held tt (lookup-add c m, add-less c m room)
