-- ===== src/Support/Tests.antt =====
-- Runs of the helper types, and instances of their theorems.
use rusty_v.Base.{
  ℕ, ◌+◌, ◌-◌, ◌≡◌, ◌↔◌, refl, ◌==◌, if◌then◌else◌, Bool, true, List, [], ◌∷◌, none, some, arith,
  ◌<◌, ◌≤◌, ◌*◌,
}
use rusty_v.Support.Shared.{
  Shared, IsCounted, shared_ptr, shared_ref, put_at, remove_at, Program, shared_from_unique,
  ref_from_unique, clone_value, drop_base, drop_value, take_value, unwrap_value, is_null,
  ref_into_ptr, base_of, Action, make_shared, make_ref, clone_one, drop_one, take_one, unwrap_one,
  into_ptr, act_on, place_of, act, act_all,
}
use rusty_v.Support.Shared.Counts.{held, IsBalanced, act_all-IsBalanced}
use rusty_v.Support.Shared.Retry.{use_count_eq, Sees, use_count_eq_lem}
use rusty_v.Support.Offsets.{from_ptrs, to_embedder, to_embedder-from_ptrs}

-- Control blocks in a list, the newest first.
abbrev counts : List ℕ → ℕ → ℕ
counts [] a = 0
counts (b ∷ bs) a = (if b == a then 1 else 0) + counts bs a

abbrev remove_one : ℕ → List ℕ → List ℕ
remove_one b [] = []
remove_one b (x ∷ xs) = if b == x then xs else x ∷ remove_one b xs

abbrev fresh : List ℕ → ℕ
fresh [] = 0
fresh (b ∷ bs) = b + 1 + fresh bs

counts-above : (bs : List ℕ) (a : ℕ) → fresh bs < a + 1 → counts bs a ≡ 0
counts-above [] a h = refl
counts-above (b ∷ bs) a h = ground (arith, counts-above bs a (omega arith))

counts-remove_one :
    (b : ℕ) (bs : List ℕ) (a : ℕ)
    → counts (remove_one b bs) a ≡ counts bs a - (if b == a then 1 else 0)
counts-remove_one b [] a = omega arith
counts-remove_one b (x ∷ xs) a = ground (arith, counts-remove_one b xs a)

abbrev listed : Shared
listed = record {
  State = List ℕ;
  clone = λ b s. b ∷ s;
  from_unique_ptr = λ p s. (fresh s, fresh s ∷ s);
  reset = remove_one;
  use_count = counts;
}

listed-IsCounted : IsCounted listed
listed-IsCounted = record {
  count-clone = λ b a s. omega arith;
  count-reset = λ b a s. counts-remove_one b s a;
  count-new = λ p a s. ground (arith, counts-above s a);
  new-unused = λ p s. counts-above s (fresh s) (omega arith);
}

abbrev no_values : Program listed
no_values = record { values = []; blocks = [] }

no_values-IsBalanced : IsBalanced listed listed-IsCounted no_values
unfolding held
no_values-IsBalanced a = refl

-- Two blocks; one is cloned, taken, converted and dropped.
abbrev script : List Action
script =
    make_shared (some 7)
    ∷ clone_one 0
    ∷ take_one 1
    ∷ make_ref 9
    ∷ unwrap_one 2
    ∷ into_ptr 0
    ∷ drop_one 1
    ∷ []

abbrev at_end : Program listed
at_end = record {
  values = shared_ptr (some 2) ∷ shared_ref 0 ∷ shared_ptr none ∷ [];
  blocks = 2 ∷ 0 ∷ [];
}

script-run : act_all listed script no_values ≡ some at_end
unfolding act_all act act_on place_of shared_from_unique ref_from_unique clone_value drop_value
    drop_base take_value unwrap_value ref_into_ptr base_of put_at remove_at is_null
script-run = refl

act_all-IsBalanced_example : listed.use_count at_end.blocks 2 ≡ held at_end.values 2
act_all-IsBalanced_example =
    act_all-IsBalanced listed listed-IsCounted script no_values at_end script-run
      no_values-IsBalanced 2

-- Another thread drops its reference between the reads 2 and 3.
abbrev reads : ℕ → ℕ
reads k = if k == 3 then 1 else 2

abbrev clock : ℕ → ℕ
clock k = 400_000_000 * k

use_count_eq_lem_example :
    (ok : Bool) × (use_count_eq 9_223_372_036_854_775_807 reads clock 3 1 ≡ some ok)
    × ((ok ≡ true)
        ↔ (1 ≤ 9_223_372_036_854_775_807) × Sees 9_223_372_036_854_775_807 reads clock 1 0)
use_count_eq_lem_example =
    use_count_eq_lem 9_223_372_036_854_775_807 reads clock 1 3 3 (omega arith) (omega arith)
      (omega arith)

made_offset : from_ptrs 64 16 4096 4112 ≡ some 16
unfolding from_ptrs
made_offset = refl

to_embedder-from_ptrs_example : to_embedder 16 (8192 + (4112 - 4096)) ≡ some 8192
to_embedder-from_ptrs_example =
    to_embedder-from_ptrs 64 16 4096 4112 16 8192 made_offset (omega arith)
