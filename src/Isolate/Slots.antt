-- ===== src/Isolate/Slots.antt =====
-- The slots of `IsolateAnnex`, and `RawSlot` (src/isolate.rs): one value for each type, stored in
-- a machine word where it fits and in a box where it does not.
--
-- A type is known by the number of its `TypeId`, a value by a number. `none` is a word that is read
-- as what it is not, or an assertion that fails.
pub mod Reference
pub mod Refines
use rusty_v.Base.{
  ℕ, ltb, Bool, true, false, not, ◌||◌, if◌then◌else◌, ◌==◌, List, [], ◌∷◌, ◌++◌, Option, none,
  some, ◌>>=◌, ◌>>◌, assert,
}

-- What `size_of`, `align_of` and `needs_drop` say of a type.
pub record Layout : Type 0 where
  pub size : ℕ
  pub align : ℕ
  pub has_drop : Bool

-- `Box<T>`, on a machine of 64 bits.
abbrev pub box_layout : Layout
box_layout = record { size = 8; align = 8; has_drop = true }

-- `RawSlot::needs_box`.
unfoldable pub needs_box : Layout → Bool
needs_box l = ltb 8 l.size || ltb 8 l.align

-- The word of a slot: a value of the type itself, or a pointer to a box with it.
pub data SlotData : Type 0 where
  plain boxed : ℕ → SlotData

-- The instance of `drop_internal` that a slot has: for the type, or for a box of it.
pub data Dtor : Type 0 where
  drop_plain drop_boxed : Dtor

pub record RawSlot : Type 0 where
  pub content : SlotData
  pub dtor : Option Dtor

unfoldable pub new_internal : Layout → SlotData → Dtor → Option RawSlot
new_internal l content drop_internal = do
  assert (not (needs_box l))
  some (record { content = content; dtor = if l.has_drop then some drop_internal else none })

unfoldable pub new_slot : Layout → ℕ → Option RawSlot
new_slot l value =
    if needs_box l
    then new_internal box_layout (boxed value) drop_boxed
    else new_internal l (plain value) drop_plain

unfoldable pub as_plain : SlotData → Option ℕ
as_plain (plain value) = some value
as_plain (boxed value) = none

unfoldable pub as_boxed : SlotData → Option ℕ
as_boxed (plain value) = none
as_boxed (boxed value) = some value

-- `borrow`, and the value that `into_inner` moves out.
unfoldable pub borrow : Layout → RawSlot → Option ℕ
borrow l slot = if needs_box l then as_boxed slot.content else as_plain slot.content

-- A write through `borrow_mut`.
unfoldable pub write_slot : Layout → ℕ → RawSlot → Option RawSlot
write_slot l value slot =
    if needs_box l
    then (do _ ← as_boxed slot.content; some (record slot { content = boxed value }))
    else (do _ ← as_plain slot.content; some (record slot { content = plain value }))

-- `drop` of a slot: the values that it drops.
unfoldable pub drop_slot : RawSlot → Option (List ℕ)
drop_slot slot = by_dtor slot.dtor
  where
    by_dtor : Option Dtor → Option (List ℕ)
    by_dtor none = some []
    by_dtor (some drop_plain) = do value ← as_plain slot.content; some (value ∷ [])
    by_dtor (some drop_boxed) = do value ← as_boxed slot.content; some (value ∷ [])

-- The hash map, as a list with one entry for a key.
unfoldable pub get {ℓ} : {A : Type ℓ} → ℕ → List (ℕ × A) → Option A
get k [] = none
get k ((i, a) ∷ es) = if k == i then some a else get k es

unfoldable pub delete {ℓ} : {A : Type ℓ} → ℕ → List (ℕ × A) → List (ℕ × A)
delete k [] = []
delete k ((i, a) ∷ es) = let rest = delete k es in if k == i then rest else ((i, a) ∷ rest)

pub record Annex : Type 0 where
  pub slots : List (ℕ × RawSlot)
  -- The values whose destructors, or whose boxes' destructors, have run.
  pub dropped : List ℕ

-- What an operation on the slots returns.
pub data Answer : Type 0 where
  found : Option ℕ → Answer
  set : Bool → Answer

pub data SlotOp : Type 0 where
  get_slot remove_slot : ℕ → SlotOp
  get_slot_mut set_slot : ℕ → ℕ → SlotOp
  drop_slots : SlotOp

module _ (layout : ℕ → Layout) where
  unfoldable pub drop_all : List (ℕ × RawSlot) → Option (List ℕ)
  drop_all [] = some []
  drop_all ((t, slot) ∷ es) = do
    first ← drop_slot slot
    others ← drop_all es
    some (first ++ others)

  unfoldable pub get_in : ℕ → Option RawSlot → Option Answer
  get_in t none = some (found none)
  get_in t (some slot) = do value ← borrow (layout t) slot; some (found (some value))

  unfoldable pub write_in : ℕ → ℕ → Annex → Option RawSlot → Option (Answer × Annex)
  write_in t value a none = some (found none, a)
  write_in t value a (some slot) = do
    old ← borrow (layout t) slot
    slot' ← write_slot (layout t) value slot
    some (found (some old), record a { slots = (t, slot') ∷ delete t a.slots })

  unfoldable pub replace_in : ℕ → RawSlot → Annex → Option RawSlot → Option (Answer × Annex)
  replace_in t slot a none = some (set true, record a { slots = (t, slot) ∷ delete t a.slots })
  replace_in t slot a (some old) = do
    values ← drop_slot old
    some (set false, record { slots = (t, slot) ∷ delete t a.slots; dropped = a.dropped ++ values })

  unfoldable pub remove_in : ℕ → Annex → Option RawSlot → Option (Answer × Annex)
  remove_in t a none = some (found none, a)
  remove_in t a (some slot) = do
    value ← borrow (layout t) slot
    some (found (some value), record a { slots = delete t a.slots })

  -- The operations. `get_slot_mut` is followed by one write through its reference, and answers with
  -- the value before. `drop_slots` is what `prepare_annex_for_dispose` does with the slots.
  unfoldable pub perform : SlotOp → Annex → Option (Answer × Annex)
  perform (get_slot t) a = do answer ← get_in t (get t a.slots); some (answer, a)
  perform (get_slot_mut t value) a = write_in t value a (get t a.slots)
  perform (set_slot t value) a = do
    slot ← new_slot (layout t) value
    replace_in t slot a (get t a.slots)
  perform (remove_slot t) a = remove_in t a (get t a.slots)
  perform drop_slots a = do
    values ← drop_all a.slots
    some (set true, record { slots = []; dropped = a.dropped ++ values })

  unfoldable pub perform_all : List SlotOp → Annex → Option (List Answer × Annex)
  perform_all [] a = some ([], a)
  perform_all (op ∷ ops) a = do
    (answer, a') ← perform op a
    (answers, a'') ← perform_all ops a'
    some (answer ∷ answers, a'')
