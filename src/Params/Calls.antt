-- ===== src/Params/Calls.antt =====
-- Chains of calls that build parameters, what V8 reads of them, and the two lives of the memory they keep:
-- that of an isolate, and that of a snapshot creator until it has made its blob.
use rusty_v.Base.{
  ℕ, Bool, true, false, if◌then◌else◌, ◌==◌, List, [], ◌∷◌, ◌++◌, Option, none, some, ◌>>=◌, length,
}
use rusty_v.Params.{
  cpp, Pointer, null, fixed, block, values, startup, Cell, Memory, alloc, load, slice, Cow,
  StartupData, cpp_data, CreateParams, default_params, set_snapshot, set_references, drop_old_data,
  drop_old_header, drop_old_cow,
}

pub data Call : Type 0 where
  snapshot_blob : StartupData → Call
  external_references : Cow → Call
  counter_lookup_callback : ℕ → Call
  array_buffer_allocator : ℕ → Call
  allow_atomics_wait : Bool → Call
  cpp_heap : ℕ → Call

unfoldable pub call : Call → CreateParams → Memory → Option (CreateParams × Memory)
call (snapshot_blob d) p m = do
  (s, m') ← set_snapshot d p.snapshot m
  some (record p { snapshot = s }, m')
call (external_references c) p m = do
  (r, m') ← set_references c p.references m
  some (record p { references = r }, m')
call (counter_lookup_callback f) p m = some (record p { counter_lookup_callback = some f }, m)
call (array_buffer_allocator a) p m = some (record p { array_buffer_allocator = some a }, m)
call (allow_atomics_wait b) p m = some (record p { allow_atomics_wait = b }, m)
call (cpp_heap h) p m = some (record p { cpp_heap = some h }, m)

unfoldable pub calls : List Call → CreateParams → Memory → Option (CreateParams × Memory)
calls [] p m = some (p, m)
calls (c ∷ cs) p m = do (p', m') ← call c p m; calls cs p' m'

unfoldable pub has_set_array_buffer_allocator : CreateParams → Bool
has_set_array_buffer_allocator p = elim (p.array_buffer_allocator) [ none ↦ false | some a ↦ true ]

-- `finalize`, with the allocator that `new_default_allocator` makes.
unfoldable pub finalize : ℕ → CreateParams → CreateParams
unfolding has_set_array_buffer_allocator
finalize fallback p =
    if has_set_array_buffer_allocator p
    then p
    else record p { array_buffer_allocator = some fallback }

-- Through the header to the data.
abbrev pub read_header : Memory → Cell → Option (List ℕ)
read_header m c = elim (c.content) [ values xs ↦ none | startup p n ↦ slice m p n ]

-- V8 reads the header that is pointed to, and the data.
unfoldable pub read_snapshot : Memory → Pointer → Option (Option (List ℕ))
read_snapshot m null = some none
read_snapshot m (fixed xs) = none
read_snapshot m (block h) = do c ← m.cells h; xs ← read_header m c; some (some xs)

-- V8 reads references up to the null pointer, and past the end where there is none.
unfoldable pub until_null : List ℕ → Option (List ℕ)
until_null [] = none
until_null (x ∷ xs) =
    let rest = until_null xs in if x == 0 then some [] else (do ys ← rest; some (x ∷ ys))

unfoldable pub read_references : Memory → Pointer → Option (Option (List ℕ))
read_references m null = some none
read_references m (fixed xs) = do ys ← until_null xs; some (some ys)
read_references m (block b) = do xs ← load m (block b); ys ← until_null xs; some (some ys)

pub record Reads : Type 0 where
  pub snapshot : Option (List ℕ)
  pub references : Option (List ℕ)

-- What V8 reads of the parameters.
unfoldable pub reads : Memory → CreateParams → Option Reads
reads m p = do
  s ← read_snapshot m p.snapshot.raw
  r ← read_references m p.references.raw
  some (record { snapshot = s; references = r })

-- The drop of `CreateParamAllocations`, field by field.
unfoldable pub drop_allocations : CreateParams → Memory → Option Memory
drop_allocations p m = do
  m₁ ← drop_old_data p.snapshot.blob_data m
  m₂ ← drop_old_header p.snapshot.blob_header m₁
  drop_old_cow p.references.kept m₂

-- `Isolate::new` with the parameters, and the drop of the isolate, which V8 disposes of before the
-- allocations go: what V8 reads when it makes it, and again when it disposes of it.
unfoldable pub isolate_life : ℕ → List Call → Memory → Option (Reads × Reads × Memory)
isolate_life fallback cs m = do
  (p, m₁) ← calls cs default_params m
  first ← reads m₁ (finalize fallback p)
  last ← reads m₁ (finalize fallback p)
  m₂ ← drop_allocations (finalize fallback p) m₁
  some (first, last, m₂)

abbrev pub optional {ℓ κ} : {A : Type ℓ} {B : Type κ} → (A → B) → Option A → List B
optional f none = []
optional f (some a) = f a ∷ []

-- What `SnapshotCreator::new_impl` makes of its arguments.
unfoldable pub creator_calls : List Call → Option Cow → Option StartupData → List Call
creator_calls cs refs blob =
    cs ++ (optional external_references refs ++ optional snapshot_blob blob)

-- `SnapshotCreator::create_blob`: a null pointer, or a block of C++ that `StartupData` then owns.
unfoldable pub create_blob : Option (List ℕ) → Memory → Option (Option StartupData × Memory)
create_blob none m = some (none, m)
create_blob (some []) m = none
create_blob (some (x ∷ xs)) m =
    let (b, m') = alloc (record { origin = cpp; content = values (x ∷ xs) }) m in
    some (some (cpp_data b (length (x ∷ xs))), m')

-- A snapshot creator from `new_impl` to the blob. V8 reads the parameters when it is made, and the
-- references again for the blob; then the allocations go.
unfoldable pub creator_life :
    (Reads → Option (List ℕ))
    → ℕ
    → List Call
    → Option Cow
    → Option StartupData
    → Memory
    → Option (Reads × Reads × Option StartupData × Memory)
creator_life serialize fallback cs refs blob m = do
  (p, m₁) ← calls (creator_calls cs refs blob) default_params m
  first ← reads m₁ (finalize fallback p)
  last ← reads m₁ (finalize fallback p)
  (made, m₂) ← create_blob (serialize last) m₁
  m₃ ← drop_allocations (finalize fallback p) m₂
  some (first, last, made, m₃)
