-- ===== src/Buffers.antt =====
-- Memory that Rust hands over to V8: the backing stores of src/array_buffer.rs, and with the same code
-- of src/shared_array_buffer.rs, and the external strings of src/string.rs.
--
-- The allocator is a parameter. A block is freed with the size and the alignment that it was allocated
-- with, and a slice without bytes has no block; `none` is a free that the allocator does not allow.
-- A type of `width` bytes is aligned to them. V8 calls the deleter once, with the length that it was
-- given.
pub mod Freed
pub mod Widths
mod Tests
use rusty_v.Base.{
  ℕ, zero, suc, ◌+◌, ◌*◌, ◌<◌, ◌≡◌, Bool, true, false, not, ◌&&◌, if◌then◌else◌, ◌==◌, List, [],
  ◌∷◌, Option, none, some, ◌>>=◌, get_elem?,
}

pub record Block : Type 0 where
  pub address : ℕ
  pub bytes : ℕ
  pub align : ℕ

abbrev pub has_block : ℕ → List Block → Bool
has_block a [] = false
has_block a (b ∷ rest) = if b.address == a then true else has_block a rest

-- A fresh address.
pub record IsAllocator (allocate : List Block → ℕ) : Type 0 where
  pub is_fresh : (heap : List Block) → has_block (allocate heap) heap ≡ false

unfoldable pub dealloc : ℕ → ℕ → ℕ → List Block → Option (List Block)
dealloc a bytes align [] = none
dealloc a bytes align (b ∷ rest) =
    let later = dealloc a bytes align rest in
    if b.address == a
    then (if b.bytes == bytes && b.align == align then some rest else none)
    else (do kept ← later; some (b ∷ kept))

-- The drop of a `Box<[T]>` of `len` elements at an address.
unfoldable pub drop_boxed_slice : ℕ → ℕ → ℕ → List Block → Option (List Block)
unfolding dealloc
drop_boxed_slice width a len heap =
    if len * width == 0 then some heap else dealloc a (len * width) width heap

-- What C++ keeps of a buffer: the pointer and the length that it calls the deleter with.
pub data Deleter : Type 0 where
  drop_rawable : ℕ → Deleter
  free_rust_external : ℕ → Deleter

pub record ForeignBuffer : Type 0 where
  pub pointer : ℕ
  pub length : ℕ
  pub deleter : Deleter

-- `Rawable::byte_len`, for slices and vectors.
unfoldable pub byte_len : ℕ → ℕ → ℕ
byte_len width len = len * width

-- `Rawable::drop_raw`: the length is taken for that of the slice.
unfoldable pub drop_raw : ℕ → ℕ → ℕ → List Block → Option (List Block)
unfolding drop_boxed_slice
drop_raw width ptr size heap = drop_boxed_slice width ptr size heap

-- `new_backing_store_from_bytes` of a slice, with `into_raw`.
unfoldable pub new_backing_store_from_bytes : ℕ → ℕ → ℕ → ForeignBuffer
unfolding byte_len
new_backing_store_from_bytes width ptr len = record {
  pointer = ptr;
  length = byte_len width len;
  deleter = drop_rawable width;
}

-- `new_external_onebyte` and `new_external_twobyte`: a width of 1 or 2.
unfoldable pub new_external : ℕ → ℕ → ℕ → ForeignBuffer
new_external width ptr len = record {
  pointer = ptr;
  length = len;
  deleter = free_rust_external width;
}

-- The deleter, as V8 calls it.
unfoldable pub delete_foreign : ForeignBuffer → Deleter → List Block → Option (List Block)
unfolding drop_raw drop_boxed_slice
delete_foreign f (drop_rawable width) heap = drop_raw width f.pointer f.length heap
delete_foreign f (free_rust_external width) heap = drop_boxed_slice width f.pointer f.length heap

unfoldable pub foreign_at : ℕ → List ForeignBuffer → Option ForeignBuffer
foreign_at i fs = get_elem? fs i

unfoldable pub without_foreign : ℕ → List ForeignBuffer → List ForeignBuffer
without_foreign i [] = []
without_foreign zero (f ∷ fs) = fs
without_foreign (suc i) (f ∷ fs) = f ∷ without_foreign i fs

-- The buffers that V8 has, and the blocks that Rust allocated for them.
pub record Memory : Type 0 where
  pub foreigns : List ForeignBuffer
  pub heap : List Block

-- A buffer of `len` elements is made and handed over, from a box or from a vector with a capacity, or
-- V8 deletes one.
pub data BufferOp : Type 0 where
  box_store external_string : ℕ → ℕ → BufferOp
  vec_store : ℕ → ℕ → ℕ → BufferOp
  collect_buffer : ℕ → BufferOp

unfoldable pub collect_found : ℕ → Option ForeignBuffer → Memory → Option Memory
unfolding delete_foreign without_foreign
collect_found i none m = some m
collect_found i (some f) m = do
  heap ← delete_foreign f f.deleter m.heap
  some (record { foreigns = without_foreign i m.foreigns; heap = heap })

module _ (allocate : List Block → ℕ) where
  -- A new `Box<[T]>`: its address and the heap. Without bytes the address is the alignment.
  unfoldable pub alloc_slice : ℕ → ℕ → List Block → ℕ × List Block
  alloc_slice width len heap = if len * width == 0 then (width, heap) else (
    allocate heap,
    record { address = allocate heap; bytes = len * width; align = width } ∷ heap,
  )

  -- `Vec::into_boxed_slice`: the allocation shrinks to the elements.
  unfoldable pub into_boxed_slice : ℕ → ℕ → ℕ → ℕ → List Block → Option (ℕ × List Block)
  unfolding drop_boxed_slice alloc_slice
  into_boxed_slice width ptr capacity len heap =
      if capacity == len
      then some (ptr, heap)
      else (do freed ← drop_boxed_slice width ptr capacity heap; some (alloc_slice width len freed))

  unfoldable pub buffer_step : BufferOp → Memory → Option Memory
  unfolding alloc_slice into_boxed_slice new_backing_store_from_bytes new_external foreign_at
      collect_found
  buffer_step (box_store width len) m =
      let (ptr, heap) = alloc_slice width len m.heap in
      some
        (record { foreigns = new_backing_store_from_bytes width ptr len ∷ m.foreigns; heap = heap })
  buffer_step (vec_store width capacity len) m =
      let (vec, heap) = alloc_slice width capacity m.heap in
      do
        boxed ← into_boxed_slice width vec capacity len heap
        some (record {
          foreigns = new_backing_store_from_bytes width boxed.0 len ∷ m.foreigns;
          heap = boxed.1;
        })
  buffer_step (external_string width len) m =
      let (ptr, heap) = alloc_slice width len m.heap in
      some (record { foreigns = new_external width ptr len ∷ m.foreigns; heap = heap })
  buffer_step (collect_buffer i) m = collect_found i (foreign_at i m.foreigns) m

  unfoldable pub buffer_steps : List BufferOp → Memory → Option Memory
  unfolding buffer_step
  buffer_steps [] m = some m
  buffer_steps (op ∷ ops) m = do after ← buffer_step op m; buffer_steps ops after
