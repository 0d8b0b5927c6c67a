-- ===== src/Isolate/Slots/Reference.antt =====
-- What the slots promise: a map from types to values, with the values that it releases: those whose
-- drop does something, which is freeing the box at least for a value that is in one.
use rusty_v.Base.{
  ℕ, ◌||◌, Bool, true, false, if◌then◌else◌, List, [], ◌∷◌, ◌++◌, Option, none, some,
}
use rusty_v.Isolate.Slots.{
  Layout, needs_box, Answer, found, set, SlotOp, get_slot, remove_slot, get_slot_mut, set_slot,
  drop_slots, get, delete,
}

pub record Store : Type 0 where
  pub values : List (ℕ × ℕ)
  pub dropped : List ℕ

module _ (layout : ℕ → Layout) where
  unfoldable pub dropping : ℕ → Option ℕ → List ℕ
  dropping t none = []
  dropping t (some value) = if needs_box (layout t) || (layout t).has_drop then (value ∷ []) else []

  unfoldable pub dropping_all : List (ℕ × ℕ) → List ℕ
  dropping_all [] = []
  dropping_all ((t, value) ∷ es) = dropping t (some value) ++ dropping_all es

  unfoldable pub is_none : Option ℕ → Bool
  is_none none = true
  is_none (some value) = false

  unfoldable pub update : ℕ → ℕ → Store → Option ℕ → Store
  update t value s none = s
  update t value s (some old) = record s { values = (t, value) ∷ delete t s.values }

  unfoldable pub promise : SlotOp → Store → Answer × Store
  promise (get_slot t) s = (found (get t s.values), s)
  promise (get_slot_mut t value) s = (found (get t s.values), update t value s (get t s.values))
  promise (set_slot t value) s = (
    set (is_none (get t s.values)),
    record {
      values = (t, value) ∷ delete t s.values;
      dropped = s.dropped ++ dropping t (get t s.values);
    },
  )
  promise (remove_slot t) s = (found (get t s.values), record s { values = delete t s.values })
  promise drop_slots s =
      (set true, record { values = []; dropped = s.dropped ++ dropping_all s.values })

  unfoldable pub promise_all : List SlotOp → Store → List Answer × Store
  promise_all [] s = ([], s)
  promise_all (op ∷ ops) s =
      let (answer, s') = promise op s in
      let (answers, s'') = promise_all ops s' in (answer ∷ answers, s'')
