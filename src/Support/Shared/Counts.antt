-- ===== src/Support/Shared/Counts.antt =====
-- The reference counts of the values of `SharedPtr` and `SharedRef` (src/support.rs).
use rusty_v.Base.{
  ℕ, zero, suc, ◌+◌, ◌-◌, ◌≡◌, refl, ◌==◌, if◌then◌else◌, List, [], ◌∷◌, Option, none, some, ◌>>=◌,
  get_elem?, arith, ==→≡, Bool-cases, inl, inr, subst,
}
use rusty_v.Support.Shared.{
  Shared, IsCounted, Value, shared_ptr, shared_ref, base_of, is_null, put_at, remove_at, Program,
  shared_from_unique, ref_from_unique, clone_value, drop_base, drop_value, take_value, unwrap_value,
  ref_into_ptr, Action, make_shared, make_ref, clone_one, drop_one, take_one, unwrap_one, into_ptr,
  act_on, act, act_all,
}

abbrev pub refers_to : Option ℕ → ℕ → ℕ
refers_to none a = 0
refers_to (some b) a = if b == a then 1 else 0

-- The values that refer to a block.
unfoldable pub held : List Value → ℕ → ℕ
unfolding base_of
held [] a = 0
held (v ∷ vs) a = refers_to (base_of v) a + held vs a

held-put_at :
    (vs : List Value) (i : ℕ) (old new : Value) (a : ℕ)
    → get_elem? vs i ≡ some old
    → held (put_at vs i new) a + refers_to (base_of old) a ≡ held vs a + refers_to (base_of new) a
unfolding put_at held
held-put_at [] i old new a h = cc
held-put_at (v ∷ vs) zero old new a h = let same : v ≡ old = cc in rw same (omega arith)
held-put_at (v ∷ vs) (suc i) old new a h = omega (arith, held-put_at vs i old new a h)

held-remove_at :
    (vs : List Value) (i : ℕ) (old : Value) (a : ℕ)
    → get_elem? vs i ≡ some old
    → held (remove_at vs i) a + refers_to (base_of old) a ≡ held vs a
unfolding remove_at held
held-remove_at [] i old a h = cc
held-remove_at (v ∷ vs) zero old a h = let same : v ≡ old = cc in rw same (omega arith)
held-remove_at (v ∷ vs) (suc i) old a h = omega (arith, held-remove_at vs i old a h)

module _ (c : Shared) (laws : IsCounted c) where
  -- Each block's count is the number of the values that refer to it.
  abbrev pub IsBalanced : Program c → Type 0
  IsBalanced s = (a : ℕ) → c.use_count s.blocks a ≡ held s.values a

  drop_base-count :
      (base : Option ℕ) (a : ℕ) (s : c.State)
      → c.use_count (drop_base c base s) a ≡ c.use_count s a - refers_to base a
  unfolding drop_base
  drop_base-count none a s = omega arith
  drop_base-count (some b) a s = laws.count-reset b a s

  -- The new block has no other value, by the balance before.
  new-counted :
      (block a : ℕ) (unused before after : ℕ) (values : List Value)
      → unused ≡ 0
      → unused ≡ held values block
      → before ≡ held values a
      → after ≡ (if block == a then 1 else before)
      → after ≡ refers_to (some block) a + held values a
  new-counted block a unused before after values z h f g = elim (Bool-cases (block == a)) [
    | inl same ↦
        let alone : unused ≡ held values a =
          subst (λ x. unused ≡ held values x) (==→≡ block a same) h in
        let fresh = rw same at g in rw same (omega arith)
    | inr differ ↦ let old = rw differ at g in rw differ (omega arith)
  ]

  make_shared-IsBalanced :
      (p : Option ℕ) (s : Program c) → IsBalanced s → IsBalanced (shared_from_unique c p s)
  unfolding shared_from_unique base_of held
  make_shared-IsBalanced none s h a = omega (arith, h a)
  make_shared-IsBalanced (some p) s h a =
      new-counted _ a _ _ _ s.values (laws.new-unused p s.blocks) (h _) (h a)
        (laws.count-new p a s.blocks)

  clone_value-IsBalanced :
      (v : Value) (s : Program c) → IsBalanced s → IsBalanced (clone_value c v s)
  unfolding clone_value base_of held
  clone_value-IsBalanced (shared_ptr none) s h a = omega (arith, h a)
  clone_value-IsBalanced (shared_ptr (some b)) s h a =
      omega (arith, laws.count-clone b a s.blocks, h a)
  clone_value-IsBalanced (shared_ref b) s h a = omega (arith, laws.count-clone b a s.blocks, h a)

  drop_value-IsBalanced :
      (i : ℕ) (v : Value) (s : Program c)
      → get_elem? s.values i ≡ some v
      → IsBalanced s
      → IsBalanced (drop_value c i v s)
  unfolding drop_value held
  drop_value-IsBalanced i v s e h a =
      omega (arith, drop_base-count (base_of v) a s.blocks, h a, held-remove_at s.values i v a e)

  take_value-IsBalanced :
      (i : ℕ) (v : Value) (s : Program c)
      → get_elem? s.values i ≡ some v
      → IsBalanced s
      → IsBalanced (take_value c i v s)
  unfolding take_value base_of held
  take_value-IsBalanced i (shared_ptr none) s e h a = h a
  take_value-IsBalanced i (shared_ptr (some b)) s e h a =
      omega (arith, h a, held-put_at s.values i (shared_ptr (some b)) (shared_ptr none) a e)
  take_value-IsBalanced i (shared_ref b) s e h a = h a

  ref_into_ptr-IsBalanced :
      (i : ℕ) (v : Value) (s : Program c)
      → get_elem? s.values i ≡ some v
      → IsBalanced s
      → IsBalanced (ref_into_ptr c i v s)
  unfolding ref_into_ptr base_of held
  ref_into_ptr-IsBalanced i (shared_ptr b) s e h a = h a
  ref_into_ptr-IsBalanced i (shared_ref b) s e h a =
      omega (arith, h a, held-put_at s.values i (shared_ref b) (shared_ptr (some b)) a e)

  unwrap_value-IsBalanced :
      (i : ℕ) (v : Value) (s t : Program c)
      → get_elem? s.values i ≡ some v
      → unwrap_value c i v s ≡ some t
      → IsBalanced s
      → IsBalanced t
  unfolding unwrap_value is_null base_of held
  unwrap_value-IsBalanced i (shared_ptr none) s t e u h = cc
  unwrap_value-IsBalanced i (shared_ptr (some b)) s t e u h =
      let after : record s { values = put_at s.values i (shared_ref b) } ≡ t = cc in
      subst IsBalanced after
        (λ a. omega (arith, h a, held-put_at s.values i (shared_ptr (some b)) (shared_ref b) a e))
  unwrap_value-IsBalanced i (shared_ref b) s t e u h =
      let after : s ≡ t = cc in subst IsBalanced after h

  act_on-IsBalanced :
      (x : Action) (i : ℕ) (found : Option Value) (s t : Program c)
      → get_elem? s.values i ≡ found
      → act_on c x i found s ≡ some t
      → IsBalanced s
      → IsBalanced t
  unfolding act_on
  act_on-IsBalanced x i none s t e u h = let after : s ≡ t = cc in subst IsBalanced after h
  act_on-IsBalanced (make_shared _) i (some v) s t e u h =
      let after : s ≡ t = cc in subst IsBalanced after h
  act_on-IsBalanced (make_ref _) i (some v) s t e u h =
      let after : s ≡ t = cc in subst IsBalanced after h
  act_on-IsBalanced (clone_one _) i (some v) s t e u h =
      let after : clone_value c v s ≡ t = cc in
      subst IsBalanced after (clone_value-IsBalanced v s h)
  act_on-IsBalanced (drop_one _) i (some v) s t e u h =
      let after : drop_value c i v s ≡ t = cc in
      subst IsBalanced after (drop_value-IsBalanced i v s e h)
  act_on-IsBalanced (take_one _) i (some v) s t e u h =
      let after : take_value c i v s ≡ t = cc in
      subst IsBalanced after (take_value-IsBalanced i v s e h)
  act_on-IsBalanced (unwrap_one _) i (some v) s t e u h = unwrap_value-IsBalanced i v s t e u h
  act_on-IsBalanced (into_ptr _) i (some v) s t e u h =
      let after : ref_into_ptr c i v s ≡ t = cc in
      subst IsBalanced after (ref_into_ptr-IsBalanced i v s e h)

  act-IsBalanced : (x : Action) (s t : Program c) → act c x s ≡ some t → IsBalanced s → IsBalanced t
  unfolding act ref_from_unique shared_from_unique
  act-IsBalanced (make_shared p) s t u h =
      let after : shared_from_unique c p s ≡ t = cc in
      subst IsBalanced after (make_shared-IsBalanced p s h)
  act-IsBalanced (make_ref p) s t u h =
      unwrap_value-IsBalanced 0 _ (shared_from_unique c (some p) s) t refl u
        (make_shared-IsBalanced (some p) s h)
  act-IsBalanced (clone_one i) s t u h = act_on-IsBalanced (clone_one i) _ _ s t refl u h
  act-IsBalanced (drop_one i) s t u h = act_on-IsBalanced (drop_one i) _ _ s t refl u h
  act-IsBalanced (take_one i) s t u h = act_on-IsBalanced (take_one i) _ _ s t refl u h
  act-IsBalanced (unwrap_one i) s t u h = act_on-IsBalanced (unwrap_one i) _ _ s t refl u h
  act-IsBalanced (into_ptr i) s t u h = act_on-IsBalanced (into_ptr i) _ _ s t refl u h

  -- Where each block's count is the number of the values that refer to it, that is so after any
  -- sequence of conversions, clones, drops, takes and unwraps that does not panic.
  pub act_all-IsBalanced :
      (xs : List Action) (s t : Program c) → act_all c xs s ≡ some t → IsBalanced s → IsBalanced t
  unfolding act_all
  act_all-IsBalanced [] s t u h = let after : s ≡ t = cc in subst IsBalanced after h
  act_all-IsBalanced (x ∷ xs) s t u h = next (act c x s) refl u (λ s'. act_all-IsBalanced xs s' t)
    where
      next :
          (r : Option (Program c))
          → act c x s ≡ r
          → (r >>= λ s'. act_all c xs s') ≡ some t
          → ((s' : Program c) → act_all c xs s' ≡ some t → IsBalanced s' → IsBalanced t)
          → IsBalanced t
      next none e v rest = cc
      next (some s') e v rest = rest s' v (act-IsBalanced x s s' e h)
