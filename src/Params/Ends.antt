-- ===== src/Params/Ends.antt =====
-- The lives of the memory that parameters keep, from the calls that build them to its end.
use rusty_v.Base.{
  ℕ, ◌+◌, ◌≡◌, ◌≢◌, refl, ◌∙◌, true, if◌then◌else◌, ◌==◌, le→leb, Bool-cases, inl, inr, List, [],
  ◌∷◌, length, take-length, Option, none, some, arith,
}
use rusty_v.Params.{
  cpp, values, Memory, load, Cow, borrowed, owned, as_ptr, StartupData, cpp_data, cow_data,
  data_ptr, slice, Snapshot, References, CreateParams, default_params, ends_null, drop_old_data,
}
use rusty_v.Params.Blocks.{
  Owners, Holds, Holds-same, Keeps, IsData, IsData-Keeps, load-as_ptr, alloc_lem, drop_data_lem,
}
use rusty_v.Params.Kept.{
  SnapshotOf, no_snapshot, a_snapshot, ReferencesOf, no_references, some_references,
  SnapshotOf-Keeps, ReferencesOf-Keeps, drop_snapshot, drop_references, kept_data_blocks,
  references_blocks,
}
use rusty_v.Params.Calls.{
  Call, calls, finalize, has_set_array_buffer_allocator, read_snapshot, until_null, read_references,
  Reads, reads, drop_allocations, isolate_life, creator_calls, create_blob, creator_life,
}
use rusty_v.Params.Life.{
  Built, calls_lem, calls_blocks, params_blocks, Gives, last_snapshot, last_references,
}

-- The references before the first null pointer.
abbrev pub before_null : List ℕ → List ℕ
before_null [] = []
before_null (x ∷ xs) = if x == 0 then [] else x ∷ before_null xs

abbrev pub shown : Option (List ℕ) → Option (List ℕ)
shown none = none
shown (some xs) = some (before_null xs)

until_null_lem : (xs : List ℕ) → ends_null xs ≡ true → until_null xs ≡ some (before_null xs)
unfolding until_null ends_null
until_null_lem [] h = cc
until_null_lem (x ∷ []) h = rw h
until_null_lem (x ∷ y ∷ rest) h = elim (Bool-cases (x == 0)) [
  | inl e ↦ rw e
  | inr e ↦ rw e (rw (until_null_lem (y ∷ rest) h))
]

slice-data_ptr :
    (m : Memory) (d : StartupData) (xs : List ℕ)
    → IsData m d xs
    → slice m (data_ptr d) (length xs) ≡ some xs
unfolding slice data_ptr
slice-data_ptr m (cpp_data b n) xs h =
    rw (h.0, le→leb (length xs) (length xs) (omega arith), take-length xs)
slice-data_ptr m (cow_data c) xs h =
    rw (load-as_ptr m c xs h, le→leb (length xs) (length xs) (omega arith), take-length xs)

read_snapshot_lem :
    {s : Snapshot} {g : Option (List ℕ)} (m : Memory)
    → SnapshotOf m s g
    → read_snapshot m s.raw ≡ some g
unfolding read_snapshot
read_snapshot_lem m no_snapshot = refl
read_snapshot_lem m (a_snapshot d h xs e i) = rw (e, slice-data_ptr m d xs i)

read_references_lem :
    {r : References} {g : Option (List ℕ)} (m : Memory)
    → ReferencesOf m r g
    → read_references m r.raw ≡ some (shown g)
unfolding read_references as_ptr load
read_references_lem m no_references = refl
read_references_lem m (some_references (borrowed ys) xs i e) = rw (i, until_null_lem xs e)
read_references_lem m (some_references (owned b) xs i e) = rw (i, until_null_lem xs e)

reads_lem :
    {s g : Option (List ℕ)} (m : Memory) (p : CreateParams)
    → SnapshotOf m p.snapshot s
    → ReferencesOf m p.references g
    → reads m p ≡ some (record { snapshot = s; references = shown g })
unfolding reads
reads_lem m p sk rk = rw (read_snapshot_lem m sk, read_references_lem m rk)

drop_allocations_lem :
    {s g : Option (List ℕ)} (own : Owners) (m : Memory) (p : CreateParams)
    → Holds (λ q. params_blocks p q + own q) m
    → SnapshotOf m p.snapshot s
    → ReferencesOf m p.references g
    → (m' : Memory) × (drop_allocations p m ≡ some m') × Holds own m' × Keeps own m m'
unfolding drop_allocations
drop_allocations_lem own m p h sk rk =
    let rest : Owners = λ q. references_blocks p.references q + own q in
    let (m₁, m₂, e₁, e₂, h₂, k₂) =
      drop_snapshot rest m (Holds-same _ _ m (λ q. omega arith) h) sk in
    let (m₃, e₃, h₃, k₃) =
      drop_references own m₂ h₂ (ReferencesOf-Keeps m m₂ (λ q p. k₂ q (omega arith)) rk) in
    (m₃, rw (e₁, e₂) e₃, h₃, λ q p. k₃ q p ∙ k₂ q (omega arith))

finalize-reads : (f : ℕ) (p : CreateParams) (m : Memory) → reads m (finalize f p) ≡ reads m p
unfolding finalize reads
finalize-reads f p m = elim (Bool-cases (has_set_array_buffer_allocator p)) [
  | inl e ↦ rw e
  | inr e ↦ rw e
]

finalize-drop :
    (f : ℕ) (p : CreateParams) (m : Memory)
    → drop_allocations (finalize f p) m ≡ drop_allocations p m
unfolding finalize drop_allocations
finalize-drop f p m = elim (Bool-cases (has_set_array_buffer_allocator p)) [
  | inl e ↦ rw e
  | inr e ↦ rw e
]

-- The snapshot of the last call for it, and the references of the last call for them up to the null
-- pointer.
abbrev pub last_reads : List Call → List (List ℕ) → Reads
last_reads cs gs = record {
  snapshot = last_snapshot cs gs none;
  references = shown (last_references cs gs none);
}

built :
    (cs : List Call) (gs : List (List ℕ)) (own : Owners) (m : Memory)
    → Holds (λ q. calls_blocks cs q + own q) m
    → Gives m cs gs
    → Built own m
        (calls cs default_params m)
        (last_snapshot cs gs none)
        (last_references cs gs none)
unfolding default_params
built cs gs own m h i =
    calls_lem cs gs own default_params m none none (Holds-same _ _ m (λ q. omega arith) h) i
      no_snapshot no_references

-- Whatever calls build the parameters, in whatever order, of data that are allocated and each owned once,
-- snapshots of fewer than 2^31 bytes: V8 reads, when an isolate is made and again when it is disposed of, the snapshot and the external
-- references that the last call for each gave, the references up to their null pointer, and reads
-- nothing that is freed; nothing is freed twice or by another allocator than its own, and when the
-- isolate has gone all of the data have been freed and nothing else.
pub isolate_life_lem :
    (fallback : ℕ) (cs : List Call) (gs : List (List ℕ)) (own : Owners) (m : Memory)
    → Holds (λ q. calls_blocks cs q + own q) m
    → Gives m cs gs
    → (m' : Memory) × (isolate_life fallback cs m ≡ some (last_reads cs gs, last_reads cs gs, m'))
      × Holds own m'
      × Keeps own m m'
unfolding isolate_life
isolate_life_lem fallback cs gs own m h i =
    let b = built cs gs own m h i in
    let r =
      finalize-reads fallback b.params b.memory
      ∙ reads_lem b.memory b.params b.snapshot_kept b.references_kept in
    let (m', e, h', k) =
      drop_allocations_lem own b.memory b.params b.holds b.snapshot_kept b.references_kept in
    let e' = finalize-drop fallback b.params b.memory ∙ e in
    (m', rw (b.returns, r, e'), h', λ q p. k q p ∙ b.keeps q p)

-- A blob with these bytes, or none.
abbrev pub Made : Memory → Option StartupData → Option (List ℕ) → Type 0
Made m none none = Unit
Made m none (some xs) = ⊥
Made m (some d) none = ⊥
Made m (some d) (some xs) = IsData m d xs

create_blob_lem :
    (o : Option (List ℕ)) (own : Owners) (m : Memory)
    → Holds own m
    → o ≢ some []
    → (d : Option StartupData) × (m' : Memory) × (create_blob o m ≡ some (d, m'))
      × Holds (λ q. kept_data_blocks d q + own q) m'
      × Keeps own m m'
      × Made m' d o
unfolding create_blob
create_blob_lem none own m h n =
    (none, m, refl, Holds-same own _ m (λ q. omega arith) h, λ q p. refl, tt)
create_blob_lem (some []) own m h n = absurd (n refl)
create_blob_lem (some (x ∷ xs)) own m h n =
    let (h', e, k) = alloc_lem own m (record { origin = cpp; content = values (x ∷ xs) }) h in
    (some (cpp_data _ _), _, refl, h', k, (e, refl))

Made-Keeps :
    (m m' : Memory) (d : Option StartupData) (o : Option (List ℕ))
    → Keeps (kept_data_blocks d) m m'
    → Made m d o
    → Made m' d o
Made-Keeps m m' none none k h = tt
Made-Keeps m m' none (some xs) k h = h
Made-Keeps m m' (some d) none k h = h
Made-Keeps m m' (some d) (some xs) k h = IsData-Keeps m m' d xs k h

drop-Made :
    (d : Option StartupData) (o : Option (List ℕ)) (own : Owners) (m : Memory)
    → Holds (λ q. kept_data_blocks d q + own q) m
    → Made m d o
    → (m' : Memory) × (drop_old_data d m ≡ some m') × Holds own m' × Keeps own m m'
unfolding drop_old_data
drop-Made none o own m h i = (m, refl, Holds-same _ own m (λ q. omega arith) h, λ q p. refl)
drop-Made (some d) none own m h i = absurd i
drop-Made (some d) (some xs) own m h i = drop_data_lem d xs own m h i

-- A snapshot creator made of parameters that are built as for an isolate, of references and of an existing
-- blob: V8 reads when it is made, and again for the blob, what the last call for each gave, of which
-- nothing is freed. This is for data that are allocated and each owned once, snapshots of fewer than 2^31
-- bytes. Where V8 does not answer with an empty blob, create_blob returns the bytes that V8
-- made, or none; what was given has been freed once by its own allocator, and when the blob is
-- dropped it is freed too, by C++, and nothing else has changed.
pub creator_life_lem :
    (serialize : Reads → Option (List ℕ)) (fallback : ℕ) (cs : List Call) (refs : Option Cow)
    (blob : Option StartupData) (gs : List (List ℕ)) (own : Owners) (m : Memory)
    → Holds (λ q. calls_blocks (creator_calls cs refs blob) q + own q) m
    → Gives m (creator_calls cs refs blob) gs
    → serialize (last_reads (creator_calls cs refs blob) gs) ≢ some []
    → (d : Option StartupData) × (m' : Memory) × (m'' : Memory) × (creator_life serialize fallback
          cs refs blob m
        ≡ some (
          last_reads (creator_calls cs refs blob) gs,
          last_reads (creator_calls cs refs blob) gs,
          d,
          m',
        ))
      × Made m' d (serialize (last_reads (creator_calls cs refs blob) gs))
      × (drop_old_data d m' ≡ some m'')
      × Holds own m''
      × Keeps own m m''
unfolding creator_life
creator_life_lem serialize fallback cs refs blob gs own m h i n =
    let b = built (creator_calls cs refs blob) gs own m h i in
    let r =
      finalize-reads fallback b.params b.memory
      ∙ reads_lem b.memory b.params b.snapshot_kept b.references_kept in
    let (d, m₂, e₂, h₂, k₂, made) = create_blob_lem _ _ b.memory b.holds n in
    let (m₃, e₃, h₃, k₃) =
      drop_allocations_lem (λ q. kept_data_blocks d q + own q) m₂ b.params
        (Holds-same _ _ m₂ (λ q. omega arith) h₂)
        (SnapshotOf-Keeps b.memory m₂ (λ q p. k₂ q (omega arith)) b.snapshot_kept)
        (ReferencesOf-Keeps b.memory m₂ (λ q p. k₂ q (omega arith)) b.references_kept) in
    let made' = Made-Keeps m₂ m₃ d _ (λ q p. k₃ q (omega arith)) made in
    let (m₄, e₄, h₄, k₄) = drop-Made d _ own m₃ h₃ made' in
    let e' = finalize-drop fallback b.params m₂ ∙ e₃ in
    (
      d,
      m₃,
      m₄,
      rw (b.returns, r, e₂, e'),
      made',
      e₄,
      h₄,
      λ q p. k₄ q p ∙ k₃ q (omega arith) ∙ k₂ q (omega arith) ∙ b.keeps q p,
    )
