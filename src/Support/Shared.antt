-- ===== src/Support/Shared.antt =====
-- `UniquePtr`, `UniqueRef`, `SharedPtr` and `SharedRef` (src/support.rs).
--
-- C++'s `std::shared_ptr` is a parameter, the trait `Shared`: a control block is a number, and its laws
-- are those of a count. A null base is `none`. `none` for a state is a panic.
pub mod Counts
pub mod Retry
use rusty_v.Base.{
  ℕ, zero, suc, ◌+◌, ◌-◌, ◌≡◌, ◌==◌, if◌then◌else◌, Bool, true, false, not, List, [], ◌∷◌, Option,
  none, some, ◌>>=◌, ◌>>◌, assert, get_elem?, length,
}

-- The trait `Shared`, for blocks that are not null.
pub record Shared : Type 1 where
  pub State : Type 0
  pub clone : ℕ → State → State
  pub from_unique_ptr : ℕ → State → ℕ × State
  pub reset : ℕ → State → State
  pub use_count : State → ℕ → ℕ

-- A clone counts one more, a reset one less, and the block of a pointer that was unique is new.
pub record IsCounted (c : Shared) : Type 0 where
  pub count-clone :
      (b a : ℕ) (s : c.State)
      → c.use_count (c.clone b s) a ≡ c.use_count s a + (if b == a then 1 else 0)
  pub count-reset :
      (b a : ℕ) (s : c.State)
      → c.use_count (c.reset b s) a ≡ c.use_count s a - (if b == a then 1 else 0)
  pub count-new :
      (p a : ℕ) (s : c.State)
      → c.use_count (c.from_unique_ptr p s).1 a
        ≡ (if (c.from_unique_ptr p s).0 == a then 1 else c.use_count s a)
  pub new-unused : (p : ℕ) (s : c.State) → c.use_count s (c.from_unique_ptr p s).0 ≡ 0

-- A Rust value: a `SharedPtr`, or a `SharedRef`, whose base is taken to be no null pointer.
pub data Value : Type 0 where
  shared_ptr : Option ℕ → Value
  shared_ref : ℕ → Value

unfoldable pub base_of : Value → Option ℕ
base_of (shared_ptr base) = base
base_of (shared_ref block) = some block

-- `SharedPtr::is_null`.
unfoldable pub is_null : Option ℕ → Bool
is_null none = true
is_null (some block) = false

unfoldable pub put_at : List Value → ℕ → Value → List Value
put_at [] i v = []
put_at (x ∷ xs) zero v = v ∷ xs
put_at (x ∷ xs) (suc i) v = x ∷ put_at xs i v

unfoldable pub remove_at : List Value → ℕ → List Value
remove_at [] i = []
remove_at (x ∷ xs) zero = xs
remove_at (x ∷ xs) (suc i) = x ∷ remove_at xs i

pub data Action : Type 0 where
  make_shared : Option ℕ → Action
  make_ref : ℕ → Action
  clone_one drop_one take_one unwrap_one into_ptr : ℕ → Action

unfoldable pub place_of : Action → ℕ
place_of (make_shared _) = 0
place_of (make_ref _) = 0
place_of (clone_one i) = i
place_of (drop_one i) = i
place_of (take_one i) = i
place_of (unwrap_one i) = i
place_of (into_ptr i) = i

module _ (c : Shared) where
  -- The values of the program, and the state of C++.
  pub record Program : Type 0 where
    pub values : List Value
    pub blocks : c.State

  -- `From<UniquePtr>` of `SharedPtr`: of a null pointer it is null.
  unfoldable pub shared_from_unique : Option ℕ → Program → Program
  shared_from_unique none s = record s { values = shared_ptr none ∷ s.values }
  shared_from_unique (some p) s =
      let (block, blocks) = c.from_unique_ptr p s.blocks in
      record { values = shared_ptr (some block) ∷ s.values; blocks = blocks }

  -- `clone` of either type.
  unfoldable pub clone_value : Value → Program → Program
  clone_value (shared_ptr none) s = record s { values = shared_ptr none ∷ s.values }
  clone_value (shared_ptr (some b)) s = record {
    values = shared_ptr (some b) ∷ s.values;
    blocks = c.clone b s.blocks;
  }
  clone_value (shared_ref b) s = record {
    values = shared_ref b ∷ s.values;
    blocks = c.clone b s.blocks;
  }

  -- `drop` of the base: a reset.
  unfoldable pub drop_base : Option ℕ → c.State → c.State
  drop_base none blocks = blocks
  drop_base (some b) blocks = c.reset b blocks

  unfoldable pub drop_value : ℕ → Value → Program → Program
  unfolding drop_base base_of
  drop_value i v s = record {
    values = remove_at s.values i;
    blocks = drop_base (base_of v) s.blocks;
  }

  -- `SharedPtr::take`: the value stays, null.
  unfoldable pub take_value : ℕ → Value → Program → Program
  take_value i (shared_ptr none) s = s
  take_value i (shared_ptr (some b)) s = record s {
    values = shared_ref b ∷ put_at s.values i (shared_ptr none);
  }
  take_value i (shared_ref b) s = s

  -- `SharedPtr::unwrap`.
  unfoldable pub unwrap_value : ℕ → Value → Program → Option Program
  unwrap_value i (shared_ptr base) s = do
    assert (not (is_null base))
    elim base [
      | none ↦ some s
      | some b ↦ some (record s { values = put_at s.values i (shared_ref b) })
    ]
  unwrap_value i (shared_ref b) s = some s

  -- `From<UniqueRef>` of `SharedRef`: a new `SharedPtr`, unwrapped.
  unfoldable pub ref_from_unique : ℕ → Program → Option Program
  ref_from_unique p s =
      let made = shared_from_unique (some p) s in
      elim (get_elem? made.values 0) [ none ↦ none | some v ↦ unwrap_value 0 v made ]

  -- `From<SharedRef>` of `SharedPtr`: the base is taken, and the reference is dropped with a null one.
  unfoldable pub ref_into_ptr : ℕ → Value → Program → Program
  ref_into_ptr i (shared_ptr base) s = s
  ref_into_ptr i (shared_ref b) s = record s { values = put_at s.values i (shared_ptr (some b)) }

  unfoldable pub act_on : Action → ℕ → Option Value → Program → Option Program
  act_on a i none s = some s
  act_on (make_shared _) i (some v) s = some s
  act_on (make_ref _) i (some v) s = some s
  act_on (clone_one _) i (some v) s = some (clone_value v s)
  act_on (drop_one _) i (some v) s = some (drop_value i v s)
  act_on (take_one _) i (some v) s = some (take_value i v s)
  act_on (unwrap_one _) i (some v) s = unwrap_value i v s
  act_on (into_ptr _) i (some v) s = some (ref_into_ptr i v s)

  -- One action, on the value at a place; there is nothing to do without one.
  unfoldable pub act : Action → Program → Option Program
  act (make_shared p) s = some (shared_from_unique p s)
  act (make_ref p) s = ref_from_unique p s
  act a s = act_on a (place_of a) (get_elem? s.values (place_of a)) s

  unfoldable pub act_all : List Action → Program → Option Program
  act_all [] s = some s
  act_all (a ∷ as') s = do s' ← act a s; act_all as' s'
