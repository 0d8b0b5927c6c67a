-- ===== src/Context/Steps.antt =====
-- What one operation on a context does to its annex.
use rusty_v.Base.{
  ℕ, ◌+◌, ◌<◌, ◌≤◌, ◌≡◌, ◌≢◌, refl, ◌∙◌, Bool, true, false, ◌==◌, ==-self, ltb, List, [], ◌∷◌, ◌++◌,
  append-nil, none, some, arith, ◌%◌,
}
use rusty_v.Handle.Finalizers.{guaranteed, add, insert, erase, lookup, remove, usize_values}
use rusty_v.Isolate.Slots.{get, delete}
use rusty_v.Isolate.Slots.Reference.{Store}
use rusty_v.Context.{
  FieldStore, ContextAnnex, ContextState, slot_values, annex_pointer, create_context_annex,
  get_annex_mut, annex_at, with_annex, without_annex, drop_annex, put_slots, get_slot_in,
  set_slot_in, remove_slot_in, clear_in, context_get_slot, context_set_slot, context_remove_slot,
  clear_all_slots, set_embedder_data, set_aligned_pointer_in_embedder_data, field_of,
  context_annex_slot,
}
use rusty_v.Context.Promise.{
  ContextOp, get_context_slot, set_context_slot, remove_context_slot, clear_context_slots,
  set_data_value, set_data_pointer, slot_promise, IsAligned, SparesAnnex, context_step,
}

-- Of the fields that V8 has room for, which are numbered by an `int` and have that of the annex among
-- them, and of aligned pointers: a write of a pointer is what a read of its field gives, and makes room
-- for it; no write changes another field's pointer, or the number of fields to a smaller one. Of other
-- fields and pointers nothing is asked.
pub record IsEmbedderData (d : FieldStore) : Type 0 where
  pub has_room : context_annex_slot < d.limit
  pub is_int : d.limit ≤ 2147483648
  pub same :
      (s : d.State) (i p : ℕ)
      → i < d.limit
      → IsAligned p
      → d.get_pointer (d.set_pointer s i p) i ≡ p
  pub grown :
      (s : d.State) (i p : ℕ) → i < d.limit → IsAligned p → i < d.count (d.set_pointer s i p)
  pub other :
      (s : d.State) (i j p : ℕ)
      → i < d.limit
      → IsAligned p
      → i ≢ j
      → d.get_pointer (d.set_pointer s i p) j ≡ d.get_pointer s j
  pub other_value :
      (s : d.State) (i j v : ℕ)
      → i < d.limit
      → i ≢ j
      → d.get_pointer (d.set_value s i v) j ≡ d.get_pointer s j
  pub kept :
      (s : d.State) (i j p : ℕ)
      → i < d.limit
      → IsAligned p
      → j < d.count s
      → j < d.count (d.set_pointer s i p)
  pub kept_value :
      (s : d.State) (i j v : ℕ) → i < d.limit → j < d.count s → j < d.count (d.set_value s i v)

-- The allocator gives a box an aligned address that is not null.
abbrev pub IsBoxAddress : ℕ → Type 0
IsBoxAddress a = (a ≢ 0) × IsAligned a

module _ (d : FieldStore) (allocate : List (ℕ × ContextAnnex) → ℕ) where
  -- Worlds without an annex, and with one.
  abbrev pub bare : d.State → ℕ → List ℕ → ContextState d allocate
  bare f n r = record {
    fields = f;
    annexes = [];
    finalizers = record { map = []; next_id = n };
    released = r;
  }

  abbrev pub held : ℕ → ℕ → List (ℕ × ℕ) → d.State → ℕ → List ℕ → ContextState d allocate
  held a id vs f n r = record {
    fields = f;
    annexes = (a, record { slots = vs; self_weak = some id }) ∷ [];
    finalizers = record { map = (id, guaranteed a) ∷ []; next_id = n };
    released = r;
  }

  -- What a world shows: there is at most one box, its finalizer is the only one, and the field points
  -- to it.
  pub data Shows : Store → ContextState d allocate → Type 0 where
    without :
        (f : d.State) (n : ℕ) (r : List ℕ)
        → annex_pointer d allocate f ≡ 0
        → Shows (record { values = []; dropped = r }) (bare f n r)
    within :
        (a id : ℕ) (vs : List (ℕ × ℕ)) (f : d.State) (n : ℕ) (r : List ℕ)
        → d.get_pointer f context_annex_slot ≡ a
        → a ≢ 0
        → context_annex_slot < d.count f
        → Shows (record { values = vs; dropped = r }) (held a id vs f n r)

  module _ (e : IsEmbedderData d)
      (fresh : (xs : List (ℕ × ContextAnnex)) → IsBoxAddress (allocate xs)) where
    pub pointer-within :
        (f : d.State)
        → context_annex_slot < d.count f
        → annex_pointer d allocate f ≡ d.get_pointer f context_annex_slot
    unfolding annex_pointer
    pointer-within f room =
        let t : ltb context_annex_slot (d.count f) ≡ true = ground arith in rw t refl

    nonzero : (a : ℕ) → a ≢ 0 → (a == 0) ≡ false
    nonzero a h = ground arith

    -- `get_annex_mut` in either kind of world.
    pub get_held :
        (create : Bool) (a id : ℕ) (vs : List (ℕ × ℕ)) (f : d.State) (n : ℕ) (r : List ℕ)
        → d.get_pointer f context_annex_slot ≡ a
        → a ≢ 0
        → context_annex_slot < d.count f
        → get_annex_mut d allocate create (held a id vs f n r) ≡ some (some a, held a id vs f n r)
    unfolding get_annex_mut
    get_held create a id vs f n r p nz room = rw (pointer-within f room, p, nonzero a nz) refl

    get_bare :
        (f : d.State) (n : ℕ) (r : List ℕ)
        → annex_pointer d allocate f ≡ 0
        → get_annex_mut d allocate false (bare f n r) ≡ some (none, bare f n r)
    unfolding get_annex_mut
    get_bare f n r p = rw p refl

    make_bare :
        (f : d.State) (n : ℕ) (r : List ℕ)
        → annex_pointer d allocate f ≡ 0
        → get_annex_mut d allocate true (bare f n r)
          ≡ some (
            some (allocate []),
            held
                (allocate [])
                n
                []
                (d.set_pointer f context_annex_slot (allocate []))
                ((n + 1) % usize_values)
                r,
          )
    unfolding get_annex_mut create_context_annex add insert erase with_annex
    make_bare f n r p =
        let t : ltb context_annex_slot (d.count (d.set_pointer f context_annex_slot (allocate [])))
            ≡ true =
          let g = e.grown f context_annex_slot (allocate []) e.has_room (fresh []).1 in
          ground arith in
        rw (p, t, ==-self (allocate [])) refl

    -- The second parts of the operations, on the annex.
    get_in_held :
        (t a id : ℕ) (vs : List (ℕ × ℕ)) (f : d.State) (n : ℕ) (r : List ℕ)
        → get_slot_in d allocate t (some a) (held a id vs f n r)
          ≡ some (get t vs, held a id vs f n r)
    unfolding get_slot_in annex_at
    get_in_held t a id vs f n r = rw (==-self a) refl

    set_in_held :
        (t v a id : ℕ) (vs : List (ℕ × ℕ)) (f : d.State) (n : ℕ) (r : List ℕ)
        → set_slot_in d allocate t v (some a) (held a id vs f n r)
          ≡ some (get t vs, held a id ((t, v) ∷ delete t vs) f n r)
    unfolding set_slot_in annex_at put_slots with_annex
    set_in_held t v a id vs f n r = rw (==-self a) refl

    remove_in_held :
        (t a id : ℕ) (vs : List (ℕ × ℕ)) (f : d.State) (n : ℕ) (r : List ℕ)
        → remove_slot_in d allocate t (some a) (held a id vs f n r)
          ≡ some (get t vs, held a id (delete t vs) f n r)
    unfolding remove_slot_in annex_at put_slots with_annex
    remove_in_held t a id vs f n r = rw (==-self a) refl

    pub drop_held :
        (a id : ℕ) (vs : List (ℕ × ℕ)) (f : d.State) (n : ℕ) (r : List ℕ)
        → drop_annex d allocate a (held a id vs f n r) ≡ some (bare f n (r ++ slot_values vs))
    unfolding drop_annex annex_at without_annex remove erase lookup
    drop_held a id vs f n r = rw (==-self a, ==-self id) refl

    clear_in-held :
        (a id : ℕ) (vs : List (ℕ × ℕ)) (f : d.State) (n : ℕ) (r : List ℕ)
        → clear_in d allocate (some a) (held a id vs f n r)
          ≡ some (bare (d.set_pointer f context_annex_slot 0) n (r ++ slot_values vs))
    unfolding clear_in
    clear_in-held a id vs f n r = rw (drop_held a id vs f n r) refl

    unfoldable pub Keeps : ContextOp → Store → ContextState d allocate → Type 0
    Keeps op s w =
        (after : ContextState d allocate) × (context_step d allocate op w
          ≡ some ((slot_promise op s).0, after))
        × Shows (slot_promise op s).1 after

    -- Where the annex is made, it shows the empty map.
    made-Shows :
        (f : d.State) (n : ℕ) (r : List ℕ)
        → Shows
            (record { values = []; dropped = r })
            (held
              (allocate [])
              n
              []
              (d.set_pointer f context_annex_slot (allocate []))
              ((n + 1) % usize_values)
              r)
    made-Shows f n r =
        within (allocate []) n [] _ _ r
          (e.same f context_annex_slot (allocate []) e.has_room (fresh []).1) (fresh []).0
          (e.grown f context_annex_slot (allocate []) e.has_room (fresh []).1)

    pointer-cleared :
        (f : d.State) → annex_pointer d allocate (d.set_pointer f context_annex_slot 0) ≡ 0
    pointer-cleared f =
        pointer-within (d.set_pointer f context_annex_slot 0)
          (e.grown f context_annex_slot 0 e.has_room refl)
        ∙ e.same f context_annex_slot 0 e.has_room refl

    abbrev made : d.State → d.State
    made f = d.set_pointer f context_annex_slot (allocate [])

    abbrev counted : ℕ → ℕ
    counted n = (n + 1) % usize_values

    -- Writes to other fields.
    written_value :
        (i v a : ℕ) (f : d.State)
        → (i ≢ context_annex_slot) × (i < d.limit)
        → d.get_pointer f context_annex_slot ≡ a
        → d.get_pointer (d.set_value f i v) context_annex_slot ≡ a
    written_value i v a f spares p = e.other_value f i context_annex_slot v spares.1 spares.0 ∙ p

    written_pointer :
        (i v a : ℕ) (f : d.State)
        → (i ≢ context_annex_slot) × (i < d.limit) × IsAligned v
        → d.get_pointer f context_annex_slot ≡ a
        → d.get_pointer (d.set_pointer f i v) context_annex_slot ≡ a
    written_pointer i v a f spares p =
        e.other f i context_annex_slot v spares.1 spares.2 spares.0 ∙ p

    pub step-Keeps :
        (op : ContextOp)
        → SparesAnnex d op
        → (s : Store) (w : ContextState d allocate) → Shows s w
        → Keeps op s w
    unfolding Keeps context_step slot_promise context_get_slot context_set_slot context_remove_slot
        clear_all_slots set_embedder_data set_aligned_pointer_in_embedder_data get_slot_in
        remove_slot_in clear_in get delete
    step-Keeps (get_context_slot t) spares _ _ (without f n r p) =
        (bare f n r, rw (get_bare f n r p) refl, without f n r p)
    step-Keeps (get_context_slot t) spares _ _ (within a id vs f n r p nz room) = (
      held a id vs f n r,
      rw (get_held false a id vs f n r p nz room, get_in_held t a id vs f n r) refl,
      within a id vs f n r p nz room,
    )
    step-Keeps (set_context_slot t v) spares _ _ (without f n r p) = (
      held (allocate []) n ((t, v) ∷ []) (made f) (counted n) r,
      rw (make_bare f n r p, set_in_held t v (allocate []) n [] (made f) (counted n) r) refl,
      within (allocate []) n _ (made f) (counted n) r
          (e.same f context_annex_slot (allocate []) e.has_room (fresh []).1) (fresh []).0
          (e.grown f context_annex_slot (allocate []) e.has_room (fresh []).1),
    )
    step-Keeps (set_context_slot t v) spares _ _ (within a id vs f n r p nz room) = (
      held a id ((t, v) ∷ delete t vs) f n r,
      rw (get_held true a id vs f n r p nz room, set_in_held t v a id vs f n r) refl,
      within a id _ f n r p nz room,
    )
    step-Keeps (remove_context_slot t) spares _ _ (without f n r p) =
        (bare f n r, rw (get_bare f n r p) refl, without f n r p)
    step-Keeps (remove_context_slot t) spares _ _ (within a id vs f n r p nz room) = (
      held a id (delete t vs) f n r,
      rw (get_held false a id vs f n r p nz room, remove_in_held t a id vs f n r) refl,
      within a id _ f n r p nz room,
    )
    step-Keeps clear_context_slots spares _ _ (without f n r p) =
        (bare f n r, rw (get_bare f n r p) refl, rw append-nil (without f n r p))
    step-Keeps clear_context_slots spares _ _ (within a id vs f n r p nz room) = (
      bare (d.set_pointer f context_annex_slot 0) n (r ++ slot_values vs),
      rw (get_held false a id vs f n r p nz room, clear_in-held a id vs f n r) refl,
      without _ n _ (pointer-cleared f),
    )
    step-Keeps (set_data_value i v) spares _ _ (without f n r p) = (
      held (allocate []) n [] (d.set_value (made f) (field_of i) v) (counted n) r,
      rw (make_bare f n r p) refl,
      within (allocate []) n [] _ (counted n) r
          (written_value (field_of i) v _ (made f) spares
            (e.same f context_annex_slot (allocate []) e.has_room (fresh []).1))
          (fresh []).0
          (e.kept_value (made f) (field_of i) context_annex_slot v spares.1
            (e.grown f context_annex_slot (allocate []) e.has_room (fresh []).1)),
    )
    step-Keeps (set_data_value i v) spares _ _ (within a id vs f n r p nz room) = (
      held a id vs (d.set_value f (field_of i) v) n r,
      rw (get_held true a id vs f n r p nz room) refl,
      within a id vs _ n r (written_value (field_of i) v a f spares p) nz
          (e.kept_value f (field_of i) context_annex_slot v spares.1 room),
    )
    step-Keeps (set_data_pointer i v) spares _ _ (without f n r p) = (
      held (allocate []) n [] (d.set_pointer (made f) (field_of i) v) (counted n) r,
      rw (make_bare f n r p) refl,
      within (allocate []) n [] _ (counted n) r
          (written_pointer (field_of i) v _ (made f) spares
            (e.same f context_annex_slot (allocate []) e.has_room (fresh []).1))
          (fresh []).0
          (e.kept (made f) (field_of i) context_annex_slot v spares.1 spares.2
            (e.grown f context_annex_slot (allocate []) e.has_room (fresh []).1)),
    )
    step-Keeps (set_data_pointer i v) spares _ _ (within a id vs f n r p nz room) = (
      held a id vs (d.set_pointer f (field_of i) v) n r,
      rw (get_held true a id vs f n r p nz room) refl,
      within a id vs _ n r (written_pointer (field_of i) v a f spares p) nz
          (e.kept f (field_of i) context_annex_slot v spares.1 spares.2 room),
    )
