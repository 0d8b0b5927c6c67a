-- ===== src/Serializer.antt =====
-- The buffer of a `ValueSerializer` (src/value_serializer.rs): V8 asks the delegate for its memory and
-- writes to it, `release` makes a vector of it, and the drop frees it.
--
-- A block is known by its size and what has been written to it. `none` is a panic, or a use of memory that
-- the language leaves undefined: an allocation of no bytes, a layout that is not that of the block, a
-- write past its end.
pub mod Released
mod Tests
use rusty_v.Base.{
  ℕ, zero, suc, ◌+◌, ◌-◌, ◌^◌, Bool, true, false, ◌&&◌, if◌then◌else◌, ◌==◌, leb, List, [], ◌∷◌,
  ◌++◌, length, take, Option, none, some, ◌>>=◌,
}

pub record BufferBlock : Type 0 where
  pub size : ℕ
  pub bytes : List ℕ

-- `buffer_size` of the heap, and V8's pointer with the size that it was told of.
pub record Heap : Type 0 where
  pub buffer_size : ℕ
  pub buffer : Option BufferBlock
  pub capacity : ℕ

unfoldable pub new_heap : Heap
new_heap = record { buffer_size = 0; buffer = none; capacity = 0 }

-- `isize::MAX`, which bounds a `Layout`.
abbrev pub max_layout : ℕ
max_layout = 9223372036854775807

unfoldable pub is_layout : ℕ → Bool
is_layout size = leb 1 size && leb size max_layout

-- `alloc` and `realloc`, where the allocator has the memory or has not. A `realloc` that fails leaves
-- the block, and null is no block.
unfoldable pub alloc_buffer : Bool → ℕ → Option (Option BufferBlock)
unfolding is_layout
alloc_buffer ok size =
    if is_layout size
    then some (if ok then some (record { size = size; bytes = [] }) else none)
    else none

unfoldable pub realloc_buffer : Bool → BufferBlock → ℕ → ℕ → Option (Option BufferBlock)
unfolding is_layout
realloc_buffer ok block old_size size =
    if (old_size == block.size) && is_layout size
    then some (if ok then some (record { size = size; bytes = take size block.bytes }) else none)
    else none

-- `v8__ValueSerializer__Delegate__ReallocateBufferMemory`: the new pointer, `actual_size` and the heap.
unfoldable pub reallocate_buffer_memory :
    Bool → Option BufferBlock → ℕ → Heap → Option (Option BufferBlock × ℕ × Heap)
unfolding alloc_buffer realloc_buffer
reallocate_buffer_memory ok none size h = do
  b ← alloc_buffer ok size
  some (b, size, record h { buffer_size = size })
reallocate_buffer_memory ok (some old) size h = do
  b ← realloc_buffer ok old h.buffer_size size
  some (b, size, record h { buffer_size = size })

-- `v8__ValueSerializer__Delegate__FreeBufferMemory`.
unfoldable pub free_buffer_memory : Option BufferBlock → Heap → Option Heap
free_buffer_memory none h = some h
free_buffer_memory (some b) h = if h.buffer_size == b.size then some h else none

-- What V8 does with the answer: a null pointer changes nothing.
unfoldable pub keep_answer : Option BufferBlock → ℕ → Heap → Heap
keep_answer none size h = h
keep_answer (some b) size h = record h { buffer = some b; capacity = size }

pub data Request : Type 0 where
  grow : Bool → ℕ → Request
  write : List ℕ → Request
  release : Request

unfoldable pub write_to : Option BufferBlock → List ℕ → Option BufferBlock
write_to none xs = none
write_to (some b) xs =
    if leb (length b.bytes + length xs) b.size
    then some (record { size = b.size; bytes = b.bytes ++ xs })
    else none

-- `Vec::from_raw_parts` takes a block over only with the size that it was allocated with.
unfoldable pub vec_of : BufferBlock → ℕ → ℕ → Option (List ℕ)
vec_of b size capacity =
    if leb size capacity && (capacity == b.size) then some (take size b.bytes) else none

-- `ValueSerializer::release`, with V8's, which hands over its pointer and the length it has written.
unfoldable pub release_buffer : Option BufferBlock → Heap → Option (List ℕ × Heap)
unfolding vec_of
release_buffer none h = some ([], record { buffer_size = 0; buffer = none; capacity = 0 })
release_buffer (some b) h = do
  v ← vec_of b (length b.bytes) h.buffer_size
  some (v, record { buffer_size = 0; buffer = none; capacity = 0 })

-- The vectors that are released, and the heap.
unfoldable pub serve : Request → Heap → Option (List (List ℕ) × Heap)
unfolding reallocate_buffer_memory keep_answer write_to release_buffer
serve (grow ok size) h = do
  (b, actual_size, h') ← reallocate_buffer_memory ok h.buffer size h
  some ([], keep_answer b actual_size h')
serve (write xs) h = do b ← write_to h.buffer xs; some ([], record h { buffer = some b })
serve release h = do (v, h') ← release_buffer h.buffer h; some (v ∷ [], h')

unfoldable pub serve_all : List Request → Heap → Option (List (List ℕ) × Heap)
unfolding serve
serve_all [] h = some ([], h)
serve_all (a ∷ todo) h = do
  (vs, h') ← serve a h
  (ws, h'') ← serve_all todo h'
  some (vs ++ ws, h'')

-- A serializer from `new` to its drop, in which V8 frees its buffer.
unfoldable pub serializer_life : List Request → Option (List (List ℕ))
unfolding serve_all new_heap free_buffer_memory
serializer_life todo = do
  (vs, h) ← serve_all todo new_heap
  h' ← free_buffer_memory h.buffer h
  some vs
