-- ===== src/Handle/Global.antt =====
-- `Global` (src/handle.rs): the globals of one isolate, and the storage cells that V8 keeps for them.
--
-- `none` is a panic, or a reset of a cell that V8 does not have. The values are not modelled: a global
-- is known by its cell, which V8 makes fresh. `IsolateLiveness` is the isolate pointer, none when null.
pub mod Cells
use rusty_v.Base.{
  ℕ, ◌+◌, Bool, true, false, if◌then◌else◌, ◌==◌, List, [], ◌∷◌, ◌++◌, Option, none, some, ◌>>=◌,
  ◌>>◌, assert,
}
use rusty_v.Handle.Host.{HandleHost, from_ptr, get_isolate, assert_match_isolate}

-- Who has a global: Rust code, or the caller of `into_raw`.
pub data Keeper : Type 0 where
  owner raw_pointer : Keeper

pub record Globals : Type 0 where
  pub isolate_liveness : Option ℕ
  -- V8's live cells, and the one that it makes next.
  pub cells : List ℕ
  pub next_cell : ℕ
  pub globals : List (ℕ × Keeper)

unfoldable pub keeper_of : ℕ → List (ℕ × Keeper) → Option Keeper
keeper_of k [] = none
keeper_of k ((i, h) ∷ gs) = if k == i then some h else keeper_of k gs

unfoldable pub without_global : ℕ → List (ℕ × Keeper) → List (ℕ × Keeper)
without_global k [] = []
without_global k ((i, h) ∷ gs) =
    let rest = without_global k gs in if k == i then rest else ((i, h) ∷ rest)

unfoldable pub has_cell : ℕ → List ℕ → Bool
has_cell k [] = false
has_cell k (i ∷ is) = if k == i then true else has_cell k is

unfoldable pub without_cell : ℕ → List ℕ → List ℕ
without_cell k [] = []
without_cell k (i ∷ is) = let rest = without_cell k is in if k == i then rest else (i ∷ rest)

-- `new_raw`: `v8__Global__New` makes the cell.
unfoldable pub new_global_raw : Globals → Globals
new_global_raw s = record s {
  cells = s.next_cell ∷ s.cells;
  next_cell = s.next_cell + 1;
  globals = (s.next_cell, owner) ∷ s.globals;
}

-- `new` from a handle of the given host, in the isolate.
unfoldable pub new_global : HandleHost → ℕ → Globals → Option Globals
new_global host ile s = do assert_match_isolate host ile; some (new_global_raw s)

-- `clone`.
unfoldable pub clone_global : Globals → Option Globals
clone_global s = do _ ← get_isolate (from_ptr s.isolate_liveness); some (new_global_raw s)

-- `v8__Global__Reset`.
unfoldable pub reset_cell : ℕ → Globals → Option Globals
reset_cell k s =
    if has_cell k s.cells then some (record s { cells = without_cell k s.cells }) else none

-- `drop`.
unfoldable pub drop_global : ℕ → Globals → Option Globals
drop_global k s = in_isolate s.isolate_liveness
  where
    in_isolate : Option ℕ → Option Globals
    in_isolate none = some (record s { globals = without_global k s.globals })
    in_isolate (some ile) = do
      s' ← reset_cell k s
      some (record s' { globals = without_global k s'.globals })

-- `into_raw` and `from_raw`: the global changes hands.
unfoldable pub hand_over : ℕ → Keeper → Globals → Globals
hand_over k h s = record s { globals = moved s.globals }
  where
    moved : List (ℕ × Keeper) → List (ℕ × Keeper)
    moved [] = []
    moved ((i, g) ∷ gs) = (i, if k == i then h else g) ∷ moved gs

pub data GlobalEvent : Type 0 where
  make clone_one : GlobalEvent
  drop_one give_raw take_raw : ℕ → GlobalEvent

unfoldable pub is_owner : Option Keeper → Bool
is_owner (some owner) = true
is_owner _ = false

unfoldable pub is_raw_pointer : Option Keeper → Bool
is_raw_pointer (some raw_pointer) = true
is_raw_pointer _ = false

-- One event. What the ownership of a global rules out leaves the state as it is.
unfoldable pub step_global : ℕ → GlobalEvent → Globals → Option Globals
step_global ile make s = new_global (from_ptr (some ile)) ile s
step_global ile clone_one s = clone_global s
step_global ile (drop_one k) s =
    if is_owner (keeper_of k s.globals) then drop_global k s else some s
step_global ile (give_raw k) s =
    some (if is_owner (keeper_of k s.globals) then hand_over k raw_pointer s else s)
step_global ile (take_raw k) s =
    some (if is_raw_pointer (keeper_of k s.globals) then hand_over k owner s else s)

unfoldable pub run_globals : ℕ → List GlobalEvent → Globals → Option Globals
run_globals ile [] s = some s
run_globals ile (e ∷ es) s = do s' ← step_global ile e s; run_globals ile es s'
