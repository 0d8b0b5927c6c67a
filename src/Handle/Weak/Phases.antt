-- ===== src/Handle/Weak/Phases.antt =====
-- The life of a weak handle while its isolate is live: its phases, and that every event goes from
-- one to another.
use rusty_v.Base.{
  ℕ, ◌<◌, ◌≡◌, refl, ◌≢◌, Bool, true, false, sym, List, [], ◌∷◌, Option, none, some, ◌⊎◌, inl, inr,
}
use rusty_v.Handle.Finalizers.{FinalizerCallback, FinalizerMap, lookup, erase, remove}
use rusty_v.Handle.Finalizers.Entries.{lookup-erase}
use rusty_v.Handle.Weak.{
  Holder, held, as_raw, gone, WeakState, is_some, drop_weak, into_raw, from_raw,
  first_pass_callback, second_pass_callback, reset, free, get_pointer, remove_finalizer,
  has_finalizer,
}

-- A handle's own finalizer, under its id.
abbrev pub Own : Type 0
Own = Option (ℕ × FinalizerCallback)

abbrev pub id_of : Own → Option ℕ
id_of none = none
id_of (some (id, c)) = some id

-- Its entry: there, or gone. Its id has been given out.
abbrev pub IsEntry : Option FinalizerCallback → ℕ → FinalizerMap → Type 0
IsEntry found id m = (lookup id m.map ≡ found) × id < m.next_id

abbrev pub Registered : Own → FinalizerMap → Type 0
Registered none m = Unit
Registered (some (id, c)) m = IsEntry (some c) id m

abbrev pub Removed : Own → FinalizerMap → Type 0
Removed none m = Unit
Removed (some (id, c)) m = IsEntry none id m

abbrev pub once : Own → List FinalizerCallback
once none = []
once (some (id, c)) = c ∷ []

abbrev pub IsOwner : Holder → Type 0
IsOwner held = Unit
IsOwner as_raw = Unit
IsOwner gone = ⊥

-- The phases of a handle in a live isolate.
pub data Phase : Own → WeakState → Type 0 where
  alive :
      (o : Own) (m : FinalizerMap) (h : Holder)
      → IsOwner h
      → Registered o m
      → Phase o (record {
        isolate_ptr = true;
        finalizers = m;
        pointer = true;
        finalizer_id = id_of o;
        weak_dropped = false;
        freed = false;
        weak = h;
        armed = true;
        pending = false;
        ran = [];
      })
  -- Between the passes.
  waiting :
      (id : ℕ) (c : FinalizerCallback) (m : FinalizerMap) (h : Holder)
      → IsOwner h
      → Registered (some (id, c)) m
      → Phase (some (id, c)) (record {
        isolate_ptr = true;
        finalizers = m;
        pointer = false;
        finalizer_id = some id;
        weak_dropped = false;
        freed = false;
        weak = h;
        armed = false;
        pending = true;
        ran = [];
      })
  collected :
      (o : Own) (m : FinalizerMap) (h : Holder)
      → IsOwner h
      → Removed o m
      → Phase o (record {
        isolate_ptr = true;
        finalizers = m;
        pointer = false;
        finalizer_id = id_of o;
        weak_dropped = false;
        freed = false;
        weak = h;
        armed = false;
        pending = false;
        ran = once o;
      })
  -- Dropped between the passes: the data is V8's.
  leaked :
      (id : ℕ) (c : FinalizerCallback) (m : FinalizerMap)
      → Removed (some (id, c)) m
      → Phase (some (id, c)) (record {
        isolate_ptr = true;
        finalizers = m;
        pointer = false;
        finalizer_id = some id;
        weak_dropped = true;
        freed = false;
        weak = gone;
        armed = false;
        pending = true;
        ran = [];
      })
  over :
      (o : Own) (m : FinalizerMap) (p d : Bool) (r : List FinalizerCallback)
      → (r ≡ []) ⊎ (r ≡ once o)
      → Removed o m
      → Phase o (record {
        isolate_ptr = true;
        finalizers = m;
        pointer = p;
        finalizer_id = id_of o;
        weak_dropped = d;
        freed = true;
        weak = gone;
        armed = false;
        pending = false;
        ran = r;
      })

-- The outcome is a state in a phase, from which as many ids are left.
abbrev pub Lands : Own → WeakState → Option WeakState → Type 0
Lands o s r =
    (s' : WeakState) × (r ≡ some s') × (s'.finalizers.next_id ≡ s.finalizers.next_id) × Phase o s'

erase-IsEntry :
    (id : ℕ) (m : FinalizerMap)
    → id < m.next_id
    → IsEntry none id (record m { map = erase id m.map })
erase-IsEntry id m less = (lookup-erase id m.map, less)

pub gone_not_held : gone ≢ held
gone_not_held e = cc

gone_not_raw : gone ≢ as_raw
gone_not_raw e = cc

pub drop-Lands : (o : Own) (s : WeakState) → Phase o s → s.weak ≡ held → Lands o s (drop_weak s)
unfolding drop_weak get_pointer reset free remove_finalizer remove is_some
drop-Lands _ _ (alive none m h w r) e = (_, refl, refl, over none m true false [] (inl refl) tt)
drop-Lands _ _ (alive (some (id, c)) m h w r) e = (
  _,
  refl,
  refl,
  over (some (id, c)) (record m { map = erase id m.map }) true false [] (inl refl)
      (erase-IsEntry id m r.1),
)
drop-Lands _ _ (waiting id c m h w r) e =
    (_, rw r.0, refl, leaked id c (record m { map = erase id m.map }) (erase-IsEntry id m r.1))
drop-Lands _ _ (collected none m h w r) e =
    (_, refl, refl, over none m false false [] (inl refl) tt)
drop-Lands _ _ (collected (some (id, c)) m h w r) e = (
  _,
  rw r.0,
  refl,
  over (some (id, c)) (record m { map = erase id m.map }) false false (c ∷ []) (inr refl)
      (erase-IsEntry id m r.1),
)
drop-Lands _ _ (leaked id c m r) e = absurd (gone_not_held e)
drop-Lands _ _ (over o m p d ran h r) e = absurd (gone_not_held e)

pub into_raw-Lands : (o : Own) (s : WeakState) → Phase o s → s.weak ≡ held → Lands o s (into_raw s)
unfolding into_raw has_finalizer free is_some
into_raw-Lands _ _ (alive o m h w r) e = (_, refl, refl, alive o m as_raw tt r)
into_raw-Lands _ _ (waiting id c m h w r) e = (_, rw r.0, refl, waiting id c m as_raw tt r)
into_raw-Lands _ _ (collected none m h w r) e =
    (_, refl, refl, over none m false false [] (inl refl) tt)
into_raw-Lands _ _ (collected (some (id, c)) m h w r) e =
    (_, rw r.0, refl, over (some (id, c)) m false false (c ∷ []) (inr refl) r)
into_raw-Lands _ _ (leaked id c m r) e = absurd (gone_not_held e)
into_raw-Lands _ _ (over o m p d ran h r) e = absurd (gone_not_held e)

pub from_raw-Lands :
    (o : Own) (s : WeakState) → Phase o s → s.weak ≡ as_raw → Lands o s (from_raw s)
unfolding from_raw
from_raw-Lands _ _ (alive o m h w r) e = (_, refl, refl, alive o m held tt r)
from_raw-Lands _ _ (waiting id c m h w r) e = (_, refl, refl, waiting id c m held tt r)
from_raw-Lands _ _ (collected o m h w r) e = (_, refl, refl, collected o m held tt r)
from_raw-Lands _ _ (leaked id c m r) e = absurd (gone_not_raw e)
from_raw-Lands _ _ (over o m p d ran h r) e = absurd (gone_not_raw e)

true_not_false : true ≢ false
true_not_false e = cc

pub first_pass-Lands :
    (o : Own) (s : WeakState) → Phase o s → s.armed ≡ true → Lands o s (first_pass_callback s)
unfolding first_pass_callback reset
first_pass-Lands _ _ (alive none m h w r) e = (_, refl, refl, collected none m h w tt)
first_pass-Lands _ _ (alive (some (id, c)) m h w r) e = (_, refl, refl, waiting id c m h w r)
first_pass-Lands _ _ (waiting id c m h w r) e = absurd (true_not_false (sym e))
first_pass-Lands _ _ (collected o m h w r) e = absurd (true_not_false (sym e))
first_pass-Lands _ _ (leaked id c m r) e = absurd (true_not_false (sym e))
first_pass-Lands _ _ (over o m p d ran h r) e = absurd (true_not_false (sym e))

pub second_pass-Lands :
    (o : Own) (s : WeakState) → Phase o s → s.pending ≡ true → Lands o s (second_pass_callback s)
unfolding second_pass_callback free remove
second_pass-Lands _ _ (alive o m h w r) e = absurd (true_not_false (sym e))
second_pass-Lands _ _ (waiting id c m h w r) e = (
  _,
  rw r.0,
  refl,
  collected (some (id, c)) (record m { map = erase id m.map }) h w (erase-IsEntry id m r.1),
)
second_pass-Lands _ _ (collected o m h w r) e = absurd (true_not_false (sym e))
second_pass-Lands _ _ (leaked id c m r) e = (
  _,
  rw r.0,
  refl,
  over (some (id, c)) (record m { map = erase id m.map }) false true [] (inl refl)
      (erase-IsEntry id m r.1),
)
second_pass-Lands _ _ (over o m p d ran h r) e = absurd (true_not_false (sym e))
