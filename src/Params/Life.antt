-- ===== src/Params/Life.antt =====
-- What V8 reads of parameters that a chain of calls has built, and what is left of the memory.
use rusty_v.Base.{ℕ, ◌+◌, ◌<◌, ◌≡◌, refl, ◌∙◌, List, [], ◌∷◌, length, Option, some, arith}
use rusty_v.Params.{Memory, CreateParams}
use rusty_v.Params.Blocks.{
  Owners, Holds, Holds-same, Keeps, cow_blocks, data_blocks, IsCow, IsData, IsCow-Keeps,
  IsData-Keeps,
}
use rusty_v.Params.Kept.{
  i32_limit, snapshot_blocks, references_blocks, SnapshotOf, ReferencesOf, SnapshotOf-Keeps,
  ReferencesOf-Keeps, set_snapshot_lem, with_null, set_references_lem,
}
use rusty_v.Params.Calls.{
  Call, snapshot_blob, external_references, counter_lookup_callback, array_buffer_allocator,
  allow_atomics_wait, cpp_heap, call, calls,
}

abbrev pub call_blocks : Call → Owners
call_blocks (snapshot_blob d) q = data_blocks d q
call_blocks (external_references c) q = cow_blocks c q
call_blocks c q = 0

abbrev pub calls_blocks : List Call → Owners
calls_blocks [] q = 0
calls_blocks (c ∷ cs) q = call_blocks c q + calls_blocks cs q

-- What a call is given: a snapshot of fewer than 2^31 bytes, or references.
abbrev pub Given : Memory → Call → List ℕ → Type 0
Given m (snapshot_blob d) xs = IsData m d xs × (length xs < i32_limit)
Given m (external_references c) xs = IsCow m c xs
Given m c xs = Unit

-- The contents that each call is given.
abbrev pub Gives : Memory → List Call → List (List ℕ) → Type 0
Gives m [] gs = Unit
Gives m (c ∷ cs) [] = ⊥
Gives m (c ∷ cs) (xs ∷ gs) = Given m c xs × Gives m cs gs

abbrev pub next_snapshot : Call → List ℕ → Option (List ℕ) → Option (List ℕ)
next_snapshot (snapshot_blob d) xs old = some xs
next_snapshot c xs old = old

abbrev pub next_references : Call → List ℕ → Option (List ℕ) → Option (List ℕ)
next_references (external_references c) xs old = some (with_null xs)
next_references c xs old = old

-- What the last call for it gave.
abbrev pub last_snapshot : List Call → List (List ℕ) → Option (List ℕ) → Option (List ℕ)
last_snapshot [] gs old = old
last_snapshot (c ∷ cs) [] old = old
last_snapshot (c ∷ cs) (xs ∷ gs) old = last_snapshot cs gs (next_snapshot c xs old)

abbrev pub last_references : List Call → List (List ℕ) → Option (List ℕ) → Option (List ℕ)
last_references [] gs old = old
last_references (c ∷ cs) [] old = old
last_references (c ∷ cs) (xs ∷ gs) old = last_references cs gs (next_references c xs old)

abbrev pub params_blocks : CreateParams → Owners
params_blocks p q = snapshot_blocks p.snapshot q + references_blocks p.references q

Given-Keeps :
    (m m' : Memory) (c : Call) (xs : List ℕ)
    → Keeps (call_blocks c) m m'
    → Given m c xs
    → Given m' c xs
Given-Keeps m m' (snapshot_blob d) xs k g = (IsData-Keeps m m' d xs k g.0, g.1)
Given-Keeps m m' (external_references c) xs k g = IsCow-Keeps m m' c xs k g
Given-Keeps m m' (counter_lookup_callback f) xs k g = tt
Given-Keeps m m' (array_buffer_allocator a) xs k g = tt
Given-Keeps m m' (allow_atomics_wait b) xs k g = tt
Given-Keeps m m' (cpp_heap h) xs k g = tt

Gives-Keeps :
    (m m' : Memory) (cs : List Call) (gs : List (List ℕ))
    → Keeps (calls_blocks cs) m m'
    → Gives m cs gs
    → Gives m' cs gs
Gives-Keeps m m' [] gs k g = tt
Gives-Keeps m m' (c ∷ cs) [] k g = g
Gives-Keeps m m' (c ∷ cs) (xs ∷ gs) k g = (
  Given-Keeps m m' c xs (λ q p. k q (omega arith)) g.0,
  Gives-Keeps m m' cs gs (λ q p. k q (omega arith)) g.1,
)

-- The parameters after a call or a chain of calls.
pub record Built (own : Owners) (m : Memory) (r : Option (CreateParams × Memory))
    (s g : Option (List ℕ)) : Type 0 where
  pub params : CreateParams
  pub memory : Memory
  pub returns : r ≡ some (params, memory)
  pub holds : Holds (λ q. params_blocks params q + own q) memory
  pub keeps : Keeps own m memory
  pub snapshot_kept : SnapshotOf memory params.snapshot s
  pub references_kept : ReferencesOf memory params.references g

unchanged :
    (own : Owners) (p : CreateParams) (m : Memory) (s g : Option (List ℕ))
    → Holds (λ q. params_blocks p q + own q) m
    → SnapshotOf m p.snapshot s
    → ReferencesOf m p.references g
    → Built own m (some (p, m)) s g
unchanged own p m s g h sk rk = record {
  params = p;
  memory = m;
  returns = refl;
  holds = h;
  keeps = λ q e. refl;
  snapshot_kept = sk;
  references_kept = rk;
}

call_lem :
    (c : Call) (xs : List ℕ) (own : Owners) (p : CreateParams) (m : Memory) (s g : Option (List ℕ))
    → Holds (λ q. call_blocks c q + (params_blocks p q + own q)) m
    → Given m c xs
    → SnapshotOf m p.snapshot s
    → ReferencesOf m p.references g
    → Built own m (call c p m) (next_snapshot c xs s) (next_references c xs g)
unfolding call
call_lem (snapshot_blob d) xs own p m s g h i sk rk =
    let (s', m', e, h', k, sk') =
      set_snapshot_lem d xs (λ q. references_blocks p.references q + own q) m
        (Holds-same _ _ m (λ q. omega arith) h) i.0 i.1 sk in
    record {
      params = record p { snapshot = s' };
      memory = m';
      returns = rw e;
      holds = Holds-same _ _ m' (λ q. omega arith) h';
      keeps = λ q p. k q (omega arith);
      snapshot_kept = sk';
      references_kept = ReferencesOf-Keeps m m' (λ q p. k q (omega arith)) rk;
    }
call_lem (external_references c) xs own p m s g h i sk rk =
    let (r', m', e, h', k, rk') =
      set_references_lem c xs (λ q. snapshot_blocks p.snapshot q + own q) m
        (Holds-same _ _ m (λ q. omega arith) h) i rk in
    record {
      params = record p { references = r' };
      memory = m';
      returns = rw e;
      holds = Holds-same _ _ m' (λ q. omega arith) h';
      keeps = λ q p. k q (omega arith);
      snapshot_kept = SnapshotOf-Keeps m m' (λ q p. k q (omega arith)) sk;
      references_kept = rk';
    }
call_lem (counter_lookup_callback f) xs own p m s g h i sk rk =
    unchanged own (record p { counter_lookup_callback = some f }) m s g
      (Holds-same _ _ m (λ q. omega arith) h) sk rk
call_lem (array_buffer_allocator f) xs own p m s g h i sk rk =
    unchanged own (record p { array_buffer_allocator = some f }) m s g
      (Holds-same _ _ m (λ q. omega arith) h) sk rk
call_lem (allow_atomics_wait f) xs own p m s g h i sk rk =
    unchanged own (record p { allow_atomics_wait = f }) m s g
      (Holds-same _ _ m (λ q. omega arith) h) sk rk
call_lem (cpp_heap f) xs own p m s g h i sk rk =
    unchanged own (record p { cpp_heap = some f }) m s g (Holds-same _ _ m (λ q. omega arith) h) sk
      rk

pub calls_lem :
    (cs : List Call) (gs : List (List ℕ)) (own : Owners) (p : CreateParams) (m : Memory)
    (s g : Option (List ℕ))
    → Holds (λ q. calls_blocks cs q + (params_blocks p q + own q)) m
    → Gives m cs gs
    → SnapshotOf m p.snapshot s
    → ReferencesOf m p.references g
    → Built own m (calls cs p m) (last_snapshot cs gs s) (last_references cs gs g)
unfolding calls
calls_lem [] gs own p m s g h i sk rk =
    unchanged own p m s g (Holds-same _ _ m (λ q. omega arith) h) sk rk
calls_lem (c ∷ cs) [] own p m s g h i sk rk = absurd i
calls_lem (c ∷ cs) (xs ∷ gs) own p m s g h i sk rk =
    let one_call =
      call_lem c xs (λ q. calls_blocks cs q + own q) p m s g (Holds-same _ _ m (λ q. omega arith) h)
        i.0 sk rk in
    let p' = one_call.params in
    let m' = one_call.memory in
    let rest =
      calls_lem cs gs own p' m' (next_snapshot c xs s) (next_references c xs g)
        (Holds-same _ _ m' (λ q. omega arith) one_call.holds)
        (Gives-Keeps m m' cs gs (λ q e. one_call.keeps q (omega arith)) i.1) one_call.snapshot_kept
        one_call.references_kept in
    record {
      params = rest.params;
      memory = rest.memory;
      returns = rw one_call.returns rest.returns;
      holds = rest.holds;
      keeps = λ q e. rest.keeps q e ∙ one_call.keeps q (omega arith);
      snapshot_kept = rest.snapshot_kept;
      references_kept = rest.references_kept;
    }
