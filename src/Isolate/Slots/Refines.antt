-- ===== src/Isolate/Slots/Refines.antt =====
-- The slots keep their promise.
use rusty_v.Base.{
  ℕ, ◌||◌, ==→≡, ◌≡◌, refl, Bool, true, false, if◌then◌else◌, ◌==◌, List, [], ◌∷◌, ◌++◌, Option,
  none, some, arith, ◌>>=◌, ◌>>◌, assert, append-nil, not,
}
use rusty_v.Isolate.Slots.{
  Layout, box_layout, needs_box, plain, boxed, drop_plain, drop_boxed, RawSlot, new_internal,
  new_slot, as_plain, as_boxed, borrow, write_slot, drop_slot, get, delete, Annex, found, set,
  SlotOp, get_slot, remove_slot, get_slot_mut, set_slot, drop_slots, drop_all, get_in, write_in,
  replace_in, remove_in, perform, perform_all,
}
use rusty_v.Isolate.Slots.Reference.{
  Store, dropping, dropping_all, is_none, update, promise, promise_all,
}

-- The slot that a value has, by whether its type needs a box and has drop glue.
abbrev pub slot_at : Bool → Bool → ℕ → RawSlot
slot_at true d value = record { content = boxed value; dtor = some drop_boxed }
slot_at false true value = record { content = plain value; dtor = some drop_plain }
slot_at false false value = record { content = plain value; dtor = none }

borrow_at :
    (b d : Bool) (value : ℕ)
    → (if b then as_boxed (slot_at b d value).content else as_plain (slot_at b d value).content)
      ≡ some value
unfolding as_plain as_boxed
borrow_at true d value = refl
borrow_at false true value = refl
borrow_at false false value = refl

small_box :
    (value : ℕ)
    → new_internal box_layout (boxed value) drop_boxed
      ≡ some (record { content = boxed value; dtor = some drop_boxed })
unfolding new_internal needs_box
small_box value = refl

delete-absent : (t : ℕ) (es : List (ℕ × ℕ)) → get t es ≡ none → delete t es ≡ es
unfolding get delete
delete-absent t [] e = refl
delete-absent t ((i, v) ∷ es) e = ground (arith, delete-absent t es)

module _ (layout : ℕ → Layout) where
  abbrev pub slot_of : ℕ → ℕ → RawSlot
  slot_of t value = slot_at (needs_box (layout t)) (layout t).has_drop value

  unfoldable pub stored : List (ℕ × ℕ) → List (ℕ × RawSlot)
  stored [] = []
  stored ((t, value) ∷ es) = (t, slot_of t value) ∷ stored es

  abbrev pub annex_of : Store → Annex
  annex_of s = record { slots = stored s.values; dropped = s.dropped }

  abbrev stored_at : ℕ → Option ℕ → Option RawSlot
  stored_at t none = none
  stored_at t (some value) = some (slot_of t value)

  new_slot_lem : (t value : ℕ) → new_slot (layout t) value ≡ some (slot_of t value)
  unfolding new_slot new_internal
  new_slot_lem t value = by_layout (needs_box (layout t)) (layout t).has_drop refl
    where
      by_layout :
          (b d : Bool)
          → needs_box (layout t) ≡ b
          → (if b then new_internal box_layout (boxed value) drop_boxed else (do
            assert (not (needs_box (layout t)))
            some (record { content = plain value; dtor = if d then some drop_plain else none })))
            ≡ some (slot_at b d value)
      by_layout true d e = small_box value
      by_layout false true e = rw e refl
      by_layout false false e = rw e refl

  borrow-slot_of : (t value : ℕ) → borrow (layout t) (slot_of t value) ≡ some value
  unfolding borrow
  borrow-slot_of t value = borrow_at (needs_box (layout t)) (layout t).has_drop value

  write-slot_of :
      (t value old : ℕ) → write_slot (layout t) value (slot_of t old) ≡ some (slot_of t value)
  unfolding write_slot as_plain as_boxed
  write-slot_of t value old = by_layout (needs_box (layout t)) (layout t).has_drop
    where
      by_layout :
          (b d : Bool)
          → (if b
              then (do
                _ ← as_boxed (slot_at b d old).content
                some (record (slot_at b d old) { content = boxed value }))
              else (do
                _ ← as_plain (slot_at b d old).content
                some (record (slot_at b d old) { content = plain value })))
            ≡ some (slot_at b d value)
      by_layout true d = refl
      by_layout false true = refl
      by_layout false false = refl

  drop-slot_of : (t value : ℕ) → drop_slot (slot_of t value) ≡ some (dropping layout t (some value))
  unfolding drop_slot as_plain as_boxed dropping
  drop-slot_of t value = by_layout (needs_box (layout t)) (layout t).has_drop
    where
      by_layout :
          (b d : Bool) → drop_slot (slot_at b d value) ≡ some (if b || d then (value ∷ []) else [])
      by_layout true d = refl
      by_layout false true = refl
      by_layout false false = refl

  get-stored : (t : ℕ) (es : List (ℕ × ℕ)) → get t (stored es) ≡ stored_at t (get t es)
  unfolding stored get
  get-stored t [] = refl
  get-stored t ((i, v) ∷ es) = elim_key (t == i) refl (get-stored t es)
    where
      elim_key :
          (b : Bool)
          → (t == i) ≡ b
          → get t (stored es) ≡ stored_at t (get t es)
          → (if b then some (slot_of i v) else get t (stored es))
            ≡ stored_at t (if b then some v else get t es)
      elim_key true e rest = rw (==→≡ t i e) refl
      elim_key false e rest = rest

  delete-stored : (t : ℕ) (es : List (ℕ × ℕ)) → delete t (stored es) ≡ stored (delete t es)
  unfolding stored delete
  delete-stored t [] = refl
  delete-stored t ((i, v) ∷ es) = ground (arith, delete-stored t es)

  drop_all-stored :
      (es : List (ℕ × ℕ)) → drop_all layout (stored es) ≡ some (dropping_all layout es)
  unfolding drop_all stored dropping_all
  drop_all-stored [] = refl
  drop_all-stored ((t, v) ∷ es) = rw (drop-slot_of t v, drop_all-stored es)

  get_in_lem : (t : ℕ) (o : Option ℕ) → get_in layout t (stored_at t o) ≡ some (found o)
  unfolding get_in
  get_in_lem t none = refl
  get_in_lem t (some value) = rw (borrow-slot_of t value) refl

  write_in_lem :
      (t value : ℕ) (s : Store) (o : Option ℕ)
      → write_in layout t value (annex_of s) (stored_at t o)
        ≡ some (found o, annex_of (update layout t value s o))
  unfolding write_in update stored
  write_in_lem t value s none = refl
  write_in_lem t value s (some old) =
      rw (borrow-slot_of t old, write-slot_of t value old, delete-stored t s.values) refl

  replace_in_lem :
      (t value : ℕ) (s : Store) (o : Option ℕ)
      → replace_in layout t (slot_of t value) (annex_of s) (stored_at t o)
        ≡ some (
          set (is_none layout o),
          record {
            slots = stored ((t, value) ∷ delete t s.values);
            dropped = s.dropped ++ dropping layout t o;
          },
        )
  unfolding replace_in is_none stored dropping
  replace_in_lem t value s none = rw (delete-stored t s.values, append-nil) refl
  replace_in_lem t value s (some old) = rw (drop-slot_of t old, delete-stored t s.values) refl

  remove_in_lem :
      (t : ℕ) (s : Store) (o : Option ℕ)
      → get t s.values ≡ o
      → remove_in layout t (annex_of s) (stored_at t o)
        ≡ some (found o, record { slots = stored (delete t s.values); dropped = s.dropped })
  unfolding remove_in
  remove_in_lem t s none e = rw (delete-absent t s.values e) refl
  remove_in_lem t s (some value) e = rw (borrow-slot_of t value, delete-stored t s.values) refl

  -- One operation does what the store promises.
  perform_lem :
      (op : SlotOp) (s : Store)
      → perform layout op (annex_of s)
        ≡ (let (answer, s') = promise layout op s in some (answer, annex_of s'))
  unfolding perform promise stored
  perform_lem (get_slot t) s = rw (get-stored t s.values, get_in_lem t (get t s.values)) refl
  perform_lem (get_slot_mut t value) s =
      rw (get-stored t s.values) (write_in_lem t value s (get t s.values))
  perform_lem (set_slot t value) s =
      rw (new_slot_lem t value, get-stored t s.values) (replace_in_lem t value s (get t s.values))
  perform_lem (remove_slot t) s =
      rw (get-stored t s.values) (remove_in_lem t s (get t s.values) refl)
  perform_lem drop_slots s = rw (drop_all-stored s.values) refl

  -- Any operations on the slots, from an annex that holds the values of a store, are memory-safe and
  -- fail no assertion. They answer what the store promises, and leave its values held and released as
  -- it says.
  pub perform_all_lem :
      (ops : List SlotOp) (s : Store)
      → perform_all layout ops (annex_of s)
        ≡ (let (answers, s') = promise_all layout ops s in some (answers, annex_of s'))
  unfolding perform_all promise_all
  perform_all_lem [] s = refl
  perform_all_lem (op ∷ ops) s =
      let (answer, s') = promise layout op s in rw (perform_lem op s, perform_all_lem ops s') refl
