-- ===== src/Params.antt =====
-- `CreateParams` (src/isolate_create_params.rs) with `StartupData` and `SnapshotCreator` (src/snapshot.rs):
-- what an isolate is made with, and the memory that its raw parameters point into.
--
-- A block of memory is named by a number; `none` of a step is a free of memory that is not allocated, or
-- not by that allocator, and a read through a pointer that does not lead to memory. A move of a
-- box or a vector does not move its block.
pub mod Blocks
pub mod Kept
pub mod Calls
pub mod Life
pub mod Ends
mod Tests
use rusty_v.Base.{
  ℕ, zero, suc, ◌+◌, ◌%◌, ◌^◌, ◌≡◌, Bool, true, false, if◌then◌else◌, ◌==◌, leb, List, [], ◌∷◌,
  ◌++◌, length, take, Option, none, some, ◌>>=◌,
}

-- Rust's allocator, and C++'s `new[]`.
pub data Origin : Type 0 where
  rust cpp : Origin

-- Null, memory that is never freed with what it holds, or a block.
pub data Pointer : Type 0 where
  null : Pointer
  fixed : List ℕ → Pointer
  block : ℕ → Pointer

-- The values of a slice, or a `RawStartupData`.
pub data Content : Type 0 where
  values : List ℕ → Content
  startup : Pointer → ℕ → Content

pub record Cell : Type 0 where
  pub origin : Origin
  pub content : Content

pub record Memory : Type 0 where
  pub next : ℕ
  pub cells : ℕ → Option Cell

unfoldable pub alloc : Cell → Memory → ℕ × Memory
alloc c m =
    (m.next, record { next = m.next + 1; cells = λ b. if m.next == b then some c else m.cells b })

abbrev pub same_origin : Origin → Origin → Bool
same_origin rust rust = true
same_origin rust cpp = false
same_origin cpp rust = false
same_origin cpp cpp = true

unfoldable pub free : Origin → ℕ → Memory → Option Memory
free o b m = do
  c ← m.cells b
  if same_origin o c.origin
      then some (record m { cells = λ q. if b == q then none else m.cells q })
      else none

abbrev pub values_of : Cell → Option (List ℕ)
values_of c = elim (c.content) [ values xs ↦ some xs | startup p n ↦ none ]

-- What a pointer leads to.
unfoldable pub load : Memory → Pointer → Option (List ℕ)
load m null = none
load m (fixed xs) = some xs
load m (block b) = m.cells b >>= values_of

-- `Cow<'static, [T]>`.
pub data Cow : Type 0 where
  borrowed : List ℕ → Cow
  owned : ℕ → Cow

unfoldable pub as_ptr : Cow → Pointer
as_ptr (borrowed xs) = fixed xs
as_ptr (owned b) = block b

unfoldable pub drop_cow : Cow → Memory → Option Memory
drop_cow (borrowed xs) m = some m
drop_cow (owned b) m = free rust b m

-- `StartupDataInner`: the block that `CreateBlob` made with its size, or a slice.
pub data StartupData : Type 0 where
  cpp_data : ℕ → ℕ → StartupData
  cow_data : Cow → StartupData

unfoldable pub data_ptr : StartupData → Pointer
unfolding as_ptr
data_ptr (cpp_data b n) = block b
data_ptr (cow_data c) = as_ptr c

-- `from_raw_parts` of a pointer and a length.
unfoldable pub slice : Memory → Pointer → ℕ → Option (List ℕ)
unfolding load
slice m p n = do xs ← load m p; if leb n (length xs) then some (take n xs) else none

-- `Deref` for `StartupData`.
unfoldable pub deref : Memory → StartupData → Option (List ℕ)
unfolding slice load as_ptr
deref m (cpp_data b n) = slice m (block b) n
deref m (cow_data c) = load m (as_ptr c)

-- `Drop` for `StartupData`: C++'s block goes to `delete[]`.
unfoldable pub drop_data : StartupData → Memory → Option Memory
unfolding free drop_cow
drop_data (cpp_data b n) m = free cpp b m
drop_data (cow_data c) m = drop_cow c m

-- `Clone` for `StartupDataInner`: a copy that Rust owns, so that C++'s block has one owner.
unfoldable pub clone_data : StartupData → Memory → Option (StartupData × Memory)
unfolding deref alloc
clone_data (cow_data (borrowed xs)) m = some (cow_data (borrowed xs), m)
clone_data (cow_data (owned b)) m = do
  xs ← deref m (cow_data (owned b))
  let (b', m') = alloc (record { origin = rust; content = values xs }) m
  some (cow_data (owned b'), m')
clone_data (cpp_data b n) m = do
  xs ← deref m (cpp_data b n)
  let (b', m') = alloc (record { origin = rust; content = values xs }) m
  some (cow_data (owned b'), m')

-- The snapshot of the parameters: the raw pointer to the header, and what keeps the header and the data.
pub record Snapshot : Type 0 where
  pub raw : Pointer
  pub blob_data : Option StartupData
  pub blob_header : Option ℕ

-- The external references: the raw pointer, and what keeps them.
pub record References : Type 0 where
  pub raw : Pointer
  pub kept : Option Cow

pub record CreateParams : Type 0 where
  pub snapshot : Snapshot
  pub references : References
  pub counter_lookup_callback : Option ℕ
  pub array_buffer_allocator : Option ℕ
  pub allow_atomics_wait : Bool
  pub cpp_heap : Option ℕ

unfoldable pub default_params : CreateParams
default_params = record {
  snapshot = record { raw = null; blob_data = none; blob_header = none };
  references = record { raw = null; kept = none };
  counter_lookup_callback = none;
  array_buffer_allocator = none;
  allow_atomics_wait = true;
  cpp_heap = none;
}

-- An assignment drops the old value.
unfoldable pub drop_old_data : Option StartupData → Memory → Option Memory
unfolding drop_data
drop_old_data none m = some m
drop_old_data (some d) m = drop_data d m

unfoldable pub drop_old_header : Option ℕ → Memory → Option Memory
unfolding free
drop_old_header none m = some m
drop_old_header (some h) m = free rust h m

unfoldable pub drop_old_cow : Option Cow → Memory → Option Memory
unfolding drop_cow
drop_old_cow none m = some m
drop_old_cow (some c) m = drop_cow c m

-- `snapshot_blob`. The size is an `int`, here by its bits.
unfoldable pub set_snapshot : StartupData → Snapshot → Memory → Option (Snapshot × Memory)
set_snapshot d s m = do
  xs ← deref m d
  let (h, m₁) =
      alloc (record { origin = rust; content = startup (data_ptr d) (length xs % 2 ^ 32) }) m
  m₂ ← drop_old_data s.blob_data m₁
  m₃ ← drop_old_header s.blob_header m₂
  some (record { raw = block h; blob_data = some d; blob_header = some h }, m₃)

-- The last element is the null pointer.
unfoldable pub ends_null : List ℕ → Bool
ends_null [] = false
ends_null (x ∷ []) = x == 0
ends_null (x ∷ y ∷ rest) = ends_null (y ∷ rest)

-- `into_owned`.
unfoldable pub into_owned : Cow → List ℕ → Memory → ℕ × Memory
unfolding alloc
into_owned (owned b) xs m = (b, m)
into_owned (borrowed ys) xs m = alloc (record { origin = rust; content = values xs }) m

-- The references with a null pointer at the end: those given, or a new vector.
unfoldable pub terminated : Cow → List ℕ → Memory → Option (Cow × Memory)
terminated c xs m =
    if ends_null xs
    then some (c, m)
    else (let (b, m₁) = into_owned c xs m in
        let (v, m₂) = alloc (record { origin = rust; content = values (xs ++ (0 ∷ [])) }) m₁ in
        do m₃ ← free rust b m₂; some (owned v, m₃))

-- `external_references`.
unfoldable pub set_references : Cow → References → Memory → Option (References × Memory)
set_references c r m = do
  xs ← load m (as_ptr c)
  (c', m₁) ← terminated c xs m
  m₂ ← drop_old_cow r.kept m₁
  some (record { raw = as_ptr c'; kept = some c' }, m₂)
