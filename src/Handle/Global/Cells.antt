-- ===== src/Handle/Global/Cells.antt =====
-- Cells and globals go together.
use rusty_v.Base.{
  ℕ, ◌+◌, ◌≡◌, refl, ap, sym, Bool, true, false, if◌then◌else◌, ==-self, List, [], ◌∷◌, some, arith,
}
use rusty_v.Handle.Host.{from_ptr, get_isolate, assert_match_isolate, assert_match_host, match_host}
use rusty_v.Handle.Global.{
  Keeper, owner, raw_pointer, Globals, keeper_of, without_global, has_cell, without_cell,
  new_global_raw, new_global, clone_global, reset_cell, drop_global, hand_over, GlobalEvent, make,
  clone_one, drop_one, give_raw, take_raw, is_owner, is_raw_pointer, step_global, run_globals,
}

-- The cells that globals stand for.
abbrev pub cells_of : List (ℕ × Keeper) → List ℕ
cells_of [] = []
cells_of ((i, h) ∷ gs) = i ∷ cells_of gs

-- A live isolate in which V8 has one cell for each global and no other.
abbrev pub pinned : ℕ → ℕ → List (ℕ × Keeper) → Globals
pinned ile n gs = record {
  isolate_liveness = some ile;
  cells = cells_of gs;
  next_cell = n;
  globals = gs;
}

without-cells_of :
    (k : ℕ) (gs : List (ℕ × Keeper)) → without_cell k (cells_of gs) ≡ cells_of (without_global k gs)
unfolding without_cell without_global
without-cells_of k [] = refl
without-cells_of k ((i, h) ∷ gs) = ground (arith, without-cells_of k gs)

has-cells_of :
    (k : ℕ) (gs : List (ℕ × Keeper))
    → is_owner (keeper_of k gs) ≡ true
    → has_cell k (cells_of gs) ≡ true
unfolding has_cell keeper_of is_owner
has-cells_of k [] e = cc
has-cells_of k ((i, h) ∷ gs) e = ground (arith, has-cells_of k gs)

-- A change of hands leaves the cells.
moved-cells :
    (k : ℕ) (h : Keeper) (ile n : ℕ) (gs : List (ℕ × Keeper))
    → cells_of (hand_over k h (pinned ile n gs)).globals ≡ cells_of gs
unfolding hand_over
moved-cells k h ile n [] = refl
moved-cells k h ile n ((i, g) ∷ gs) = ap (λ is. i ∷ is) (moved-cells k h ile n gs)

handed :
    (k : ℕ) (h : Keeper) (ile n : ℕ) (gs : List (ℕ × Keeper))
    → hand_over k h (pinned ile n gs) ≡ pinned ile n (hand_over k h (pinned ile n gs)).globals
unfolding hand_over
handed k h ile n gs =
    ap
      (λ (is : List ℕ). record {
        isolate_liveness = some ile;
        cells = is;
        next_cell = n;
        globals = (hand_over k h (pinned ile n gs)).globals;
      })
      (sym (moved-cells k h ile n gs))

IsPinned-if :
    (b : Bool) (k : ℕ) (h : Keeper) (ile n : ℕ) (gs : List (ℕ × Keeper))
    → (gs' : List (ℕ × Keeper)) × ((if b then hand_over k h (pinned ile n gs) else pinned ile n gs)
        ≡ pinned ile n gs')
IsPinned-if true k h ile n gs = (_, handed k h ile n gs)
IsPinned-if false k h ile n gs = (gs, refl)

drop_pinned :
    (k ile n : ℕ) (gs : List (ℕ × Keeper))
    → is_owner (keeper_of k gs) ≡ true
    → drop_global k (pinned ile n gs) ≡ some (pinned ile n (without_global k gs))
unfolding drop_global reset_cell
drop_pinned k ile n gs e = rw (has-cells_of k gs e, without-cells_of k gs) refl

dropped :
    (b : Bool) (k ile n : ℕ) (gs : List (ℕ × Keeper))
    → is_owner (keeper_of k gs) ≡ b
    → (gs' : List (ℕ × Keeper)) × ((if b
          then drop_global k (pinned ile n gs)
          else some (pinned ile n gs))
        ≡ some (pinned ile n gs'))
dropped true k ile n gs e = (_, drop_pinned k ile n gs e)
dropped false k ile n gs e = (gs, refl)

step_pinned :
    (ile : ℕ) (e : GlobalEvent) (n : ℕ) (gs : List (ℕ × Keeper))
    → (n' : ℕ) × (gs' : List (ℕ × Keeper)) × (step_global ile e (pinned ile n gs)
        ≡ some (pinned ile n' gs'))
unfolding step_global new_global clone_global new_global_raw get_isolate from_ptr
    assert_match_isolate assert_match_host match_host
step_pinned ile make n gs = (n + 1, (n, owner) ∷ gs, rw (==-self ile) refl)
step_pinned ile clone_one n gs = (n + 1, (n, owner) ∷ gs, refl)
step_pinned ile (drop_one k) n gs =
    let (gs', e) = dropped (is_owner (keeper_of k gs)) k ile n gs refl in (n, gs', e)
step_pinned ile (give_raw k) n gs =
    let (gs', e) = IsPinned-if (is_owner (keeper_of k gs)) k raw_pointer ile n gs in
    (n, gs', ap (λ s. some s) e)
step_pinned ile (take_raw k) n gs =
    let (gs', e) = IsPinned-if (is_raw_pointer (keeper_of k gs)) k owner ile n gs in
    (n, gs', ap (λ s. some s) e)

-- However globals of a live isolate are made, cloned, dropped and turned into raw pointers and back,
-- from a state in which V8 has one cell for each global and no other: no cell is reset twice, nothing
-- panics, and V8 again has one cell for each global and no other.
pub run_globals_lem :
    (ile : ℕ) (es : List GlobalEvent) (n : ℕ) (gs : List (ℕ × Keeper))
    → (n' : ℕ) × (gs' : List (ℕ × Keeper)) × (run_globals ile es (pinned ile n gs)
        ≡ some (pinned ile n' gs'))
unfolding run_globals
run_globals_lem ile [] n gs = (n, gs, refl)
run_globals_lem ile (e ∷ es) n gs =
    let (n', gs', d) = step_pinned ile e n gs in
    let (n'', gs'', d') = run_globals_lem ile es n' gs' in (n'', gs'', rw (d, d') refl)
