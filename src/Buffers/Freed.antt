-- ===== src/Buffers/Freed.antt =====
-- Each block is freed once, as it was allocated.
use rusty_v.Base.{
  ℕ, zero, suc, ◌*◌, ◌≡◌, ◌⊎◌, inl, inr, refl, subst, Bool, true, false, if◌then◌else◌, ◌==◌,
  ==-self, ==→≡, Bool-cases, List, [], ◌∷◌, Option, none, some, get_elem?, All, arith,
}
use rusty_v.Buffers.{
  Block, has_block, IsAllocator, dealloc, drop_boxed_slice, Deleter, drop_rawable,
  free_rust_external, ForeignBuffer, byte_len, drop_raw, new_backing_store_from_bytes, new_external,
  delete_foreign, foreign_at, without_foreign, Memory, BufferOp, box_store, external_string,
  vec_store, collect_buffer, alloc_slice, into_boxed_slice, collect_found, buffer_step,
  buffer_steps,
}

-- The bytes and the alignment of what a foreign buffer was allocated with.
abbrev pub bytes_by : Deleter → ℕ → ℕ
bytes_by (drop_rawable width) length = length
bytes_by (free_rust_external width) length = length * width

abbrev pub align_by : Deleter → ℕ
align_by (drop_rawable width) = width
align_by (free_rust_external width) = width

abbrev pub block_of : ForeignBuffer → Block
block_of f = record {
  address = f.pointer;
  bytes = bytes_by f.deleter f.length;
  align = align_by f.deleter;
}

unfoldable pub blocks_of : List ForeignBuffer → List Block
blocks_of [] = []
blocks_of (f ∷ fs) =
    let rest = blocks_of fs in if bytes_by f.deleter f.length == 0 then rest else block_of f ∷ rest

-- A backing store over elements of one byte, or over none.
abbrev pub IsByByte : Deleter → ℕ → Type 0
IsByByte (drop_rawable width) length = (width ≡ 1) ⊎ (length ≡ 0)
IsByByte (free_rust_external width) length = Unit

unfoldable pub AreDistinct : List Block → Type 0
AreDistinct [] = Unit
AreDistinct (b ∷ rest) = (has_block b.address rest ≡ false) × AreDistinct rest

-- The blocks that are allocated are those of the foreign buffers, each at its own address.
pub record IsOwned (m : Memory) : Type 0 where
  pub blocks : m.heap ≡ blocks_of m.foreigns
  pub distinct : AreDistinct m.heap
  pub by_byte : All (λ (f : ForeignBuffer). IsByByte f.deleter f.length) m.foreigns

drop_foreign :
    (f : ForeignBuffer) (heap : List Block)
    → IsByByte f.deleter f.length
    → delete_foreign f f.deleter heap ≡ (
        if bytes_by f.deleter f.length == 0
        then some heap
        else dealloc f.pointer (bytes_by f.deleter f.length) (align_by f.deleter) heap)
unfolding delete_foreign drop_raw drop_boxed_slice
drop_foreign f heap h = by_deleter f.deleter f.length h
  where
    by_deleter :
        (k : Deleter) (length : ℕ)
        → IsByByte k length
        → delete_foreign (record { pointer = f.pointer; length = length; deleter = k }) k heap ≡ (
            if bytes_by k length == 0
            then some heap
            else dealloc f.pointer (bytes_by k length) (align_by k) heap)
    by_deleter (drop_rawable width) length (inl one) =
        let same : length * 1 ≡ length = omega arith in rw (one, same) refl
    by_deleter (drop_rawable width) length (inr empty) =
        let same : 0 * width ≡ 0 = omega arith in rw (empty, same) refl
    by_deleter (free_rust_external width) length h = refl

has_block-found :
    (fs : List ForeignBuffer) (i : ℕ) (f : ForeignBuffer)
    → get_elem? fs i ≡ some f
    → (bytes_by f.deleter f.length == 0) ≡ false
    → has_block f.pointer (blocks_of fs) ≡ true
unfolding blocks_of
has_block-found [] i f e h = cc
has_block-found (g ∷ fs) zero f e h = let same : g ≡ f = cc in rw (same, h, ==-self f.pointer) refl
has_block-found (g ∷ fs) (suc i) f e h =
    let found = has_block-found fs i f e h in
    elim (Bool-cases (bytes_by g.deleter g.length == 0)) [
      | inl none_left ↦ rw none_left found
      | inr some_left ↦ rw (some_left, found) (ground arith)
    ]

other_address :
    (heap : List Block) (a b : ℕ)
    → has_block b heap ≡ true
    → has_block a heap ≡ false
    → (a == b) ≡ false
other_address heap a b here not_there = elim (Bool-cases (a == b)) [
  | inl same ↦
      let equal : a ≡ b = ==→≡ a b same in let there : has_block a heap ≡ true = rw equal here in cc
  | inr other ↦ other
]

dealloc-blocks_of :
    (fs : List ForeignBuffer) (i : ℕ) (f : ForeignBuffer)
    → get_elem? fs i ≡ some f
    → (bytes_by f.deleter f.length == 0) ≡ false
    → AreDistinct (blocks_of fs)
    → dealloc f.pointer (bytes_by f.deleter f.length) (align_by f.deleter) (blocks_of fs)
      ≡ some (blocks_of (without_foreign i fs))
unfolding blocks_of without_foreign dealloc AreDistinct
dealloc-blocks_of [] i f e h d = cc
dealloc-blocks_of (g ∷ fs) zero f e h d =
    let same : g ≡ f = cc in
    rw
      (
        same,
        h,
        ==-self f.pointer,
        ==-self (bytes_by f.deleter f.length),
        ==-self (align_by f.deleter),
      )
      refl
dealloc-blocks_of (g ∷ fs) (suc i) f e h d = elim (Bool-cases (bytes_by g.deleter g.length == 0)) [
  | inl none_left ↦
      let tail : AreDistinct (blocks_of fs) = rw none_left at d in
      let rest = dealloc-blocks_of fs i f e h tail in rw none_left rest
  | inr some_left ↦
      let both : (has_block g.pointer (blocks_of fs) ≡ false) × AreDistinct (blocks_of fs) =
        rw some_left at d in
      let rest = dealloc-blocks_of fs i f e h both.1 in
      let other : (g.pointer == f.pointer) ≡ false =
        other_address _ _ _ (has_block-found fs i f e h) both.0 in
      rw (some_left, other, rest) refl
]

blocks_of-without_foreign :
    (fs : List ForeignBuffer) (i : ℕ) (f : ForeignBuffer)
    → get_elem? fs i ≡ some f
    → (bytes_by f.deleter f.length == 0) ≡ true
    → blocks_of (without_foreign i fs) ≡ blocks_of fs
unfolding blocks_of without_foreign
blocks_of-without_foreign [] i f e h = refl
blocks_of-without_foreign (g ∷ fs) zero f e h = let same : g ≡ f = cc in rw (same, h) refl
blocks_of-without_foreign (g ∷ fs) (suc i) f e h =
    let rest = blocks_of-without_foreign fs i f e h in rw rest refl

neither : (c r : Bool) → (if c then true else r) ≡ false → (c ≡ false) × (r ≡ false)
neither true r h = cc
neither false r h = (refl, h)

has_block-without_foreign :
    (fs : List ForeignBuffer) (i a : ℕ)
    → has_block a (blocks_of fs) ≡ false
    → has_block a (blocks_of (without_foreign i fs)) ≡ false
unfolding blocks_of without_foreign
has_block-without_foreign [] i a h = h
has_block-without_foreign (g ∷ fs) zero a h = elim (Bool-cases (bytes_by g.deleter g.length == 0)) [
  | inl none_left ↦ rw none_left at h
  | inr some_left ↦
      let apart = neither (g.pointer == a) (has_block a (blocks_of fs)) (rw some_left at h) in
      apart.1
]
has_block-without_foreign (g ∷ fs) (suc i) a h =
    let rest = has_block-without_foreign fs i a in
    elim (Bool-cases (bytes_by g.deleter g.length == 0)) [
      | inl none_left ↦ rw none_left (rest (rw none_left at h))
      | inr some_left ↦
          let apart = neither (g.pointer == a) (has_block a (blocks_of fs)) (rw some_left at h) in
          rw (some_left, apart.0, rest apart.1) refl
    ]

AreDistinct-without_foreign :
    (fs : List ForeignBuffer) (i : ℕ)
    → AreDistinct (blocks_of fs)
    → AreDistinct (blocks_of (without_foreign i fs))
unfolding blocks_of without_foreign AreDistinct
AreDistinct-without_foreign [] i d = d
AreDistinct-without_foreign (g ∷ fs) zero d = elim (Bool-cases (bytes_by g.deleter g.length == 0)) [
  | inl none_left ↦ rw none_left at d
  | inr some_left ↦
      let both : (has_block g.pointer (blocks_of fs) ≡ false) × AreDistinct (blocks_of fs) =
        rw some_left at d in
      both.1
]
AreDistinct-without_foreign (g ∷ fs) (suc i) d =
    elim (Bool-cases (bytes_by g.deleter g.length == 0)) [
      | inl none_left ↦
          let tail : AreDistinct (blocks_of fs) = rw none_left at d in
          rw none_left (AreDistinct-without_foreign fs i tail)
      | inr some_left ↦
          let both : (has_block g.pointer (blocks_of fs) ≡ false) × AreDistinct (blocks_of fs) =
            rw some_left at d in
          rw some_left (
            has_block-without_foreign fs i g.pointer both.0,
            AreDistinct-without_foreign fs i both.1,
          )
    ]

All-without_foreign :
    (P : ForeignBuffer → Type 0) (fs : List ForeignBuffer) (i : ℕ)
    → All P fs
    → All P (without_foreign i fs)
unfolding without_foreign
All-without_foreign P [] i h = h
All-without_foreign P (g ∷ fs) zero h = h.1
All-without_foreign P (g ∷ fs) (suc i) h = (h.0, All-without_foreign P fs i h.1)

All-found :
    (fs : List ForeignBuffer) (i : ℕ) (f : ForeignBuffer)
    → get_elem? fs i ≡ some f
    → All (λ (g : ForeignBuffer). IsByByte g.deleter g.length) fs
    → IsByByte f.deleter f.length
All-found [] i f e h = cc
All-found (g ∷ fs) zero f e h =
    let same : g ≡ f = cc in subst (λ (k : ForeignBuffer). IsByByte k.deleter k.length) same h.0
All-found (g ∷ fs) (suc i) f e h = All-found fs i f e h.1

-- What a step needs: a store over elements of one byte, and a vector no longer than its capacity.
abbrev pub IsOp : BufferOp → Type 0
IsOp (box_store width len) = (width ≡ 1) ⊎ (len ≡ 0)
IsOp (vec_store width capacity len) = (width ≡ 1) ⊎ (len ≡ 0)
IsOp (external_string width len) = Unit
IsOp (collect_buffer i) = Unit

by_byte_store : (width len : ℕ) → (width ≡ 1) ⊎ (len ≡ 0) → (width ≡ 1) ⊎ (len * width ≡ 0)
by_byte_store width len (inl h) = inl h
by_byte_store width len (inr h) =
    let none_left : 0 * width ≡ 0 = omega arith in inr (rw h none_left)

module _ (allocate : List Block → ℕ) (fresh : IsAllocator allocate) where
  into_boxed_slice-alloc_slice :
      (width capacity len : ℕ) (heap : List Block)
      → into_boxed_slice allocate width
          (alloc_slice allocate width capacity heap).0
          capacity
          len
          (alloc_slice allocate width capacity heap).1
        ≡ some (alloc_slice allocate width len heap)
  unfolding into_boxed_slice alloc_slice drop_boxed_slice dealloc
  into_boxed_slice-alloc_slice width capacity len heap = elim (Bool-cases (capacity == len)) [
    | inl full ↦ let same = ==→≡ capacity len full in rw (same, ==-self len) refl
    | inr other ↦ elim (Bool-cases (capacity * width == 0)) [
      | inl none_left ↦ rw (other, none_left) refl
      | inr some_left ↦
          rw (other, some_left, ==-self (allocate heap), ==-self (capacity * width), ==-self width)
            refl
    ]
  ]

  hand_over :
      (m : Memory) (f : ForeignBuffer) (width len : ℕ)
      → IsOwned m
      → f.pointer ≡ (alloc_slice allocate width len m.heap).0
      → bytes_by f.deleter f.length ≡ len * width
      → align_by f.deleter ≡ width
      → IsByByte f.deleter f.length
      → IsOwned
          (record { foreigns = f ∷ m.foreigns; heap = (alloc_slice allocate width len m.heap).1 })
  unfolding alloc_slice blocks_of AreDistinct
  hand_over m f width len o p b a h = elim (Bool-cases (len * width == 0)) [
    | inl none_left ↦ record {
      blocks = rw (b, none_left) o.blocks;
      distinct = rw none_left o.distinct;
      by_byte = (h, o.by_byte);
    }
    | inr some_left ↦
        let at : f.pointer ≡ allocate m.heap = rw some_left at p in
        record {
          blocks = rw (b, some_left, at, a, o.blocks) refl;
          distinct = rw some_left (fresh.is_fresh m.heap, o.distinct);
          by_byte = (h, o.by_byte);
        }
  ]

  collect_found-IsOwned :
      (m : Memory) (i : ℕ) (r : Option ForeignBuffer)
      → get_elem? m.foreigns i ≡ r
      → IsOwned m
      → (after : Memory) × (collect_found i r m ≡ some after) × IsOwned after
  unfolding collect_found
  collect_found-IsOwned m i none e o = (m, refl, o)
  collect_found-IsOwned m i (some f) e o =
      let h = All-found m.foreigns i f e o.by_byte in
      let freed = drop_foreign f m.heap h in
      let kept =
        All-without_foreign (λ (g : ForeignBuffer). IsByByte g.deleter g.length) m.foreigns i
          o.by_byte in
      let apart : AreDistinct (blocks_of m.foreigns) = subst AreDistinct o.blocks o.distinct in
      let after : Memory = record {
        foreigns = without_foreign i m.foreigns;
        heap = blocks_of (without_foreign i m.foreigns);
      } in
      elim (Bool-cases (bytes_by f.deleter f.length == 0)) [
        | inl none_left ↦
            let left = blocks_of-without_foreign m.foreigns i f e none_left in
            (
              after,
              rw (freed, none_left, o.blocks, left) refl,
              record {
                blocks = refl;
                distinct = AreDistinct-without_foreign m.foreigns i apart;
                by_byte = kept;
              },
            )
        | inr some_left ↦
            let dealt = dealloc-blocks_of m.foreigns i f e some_left apart in
            (
              after,
              rw (freed, some_left, o.blocks, dealt) refl,
              record {
                blocks = refl;
                distinct = AreDistinct-without_foreign m.foreigns i apart;
                by_byte = kept;
              },
            )
      ]

  buffer_step-IsOwned :
      (op : BufferOp) (m : Memory)
      → IsOp op
      → IsOwned m
      → (after : Memory) × (buffer_step allocate op m ≡ some after) × IsOwned after
  unfolding buffer_step new_backing_store_from_bytes new_external byte_len foreign_at
  buffer_step-IsOwned (box_store width len) m h o =
      (_, refl, hand_over m _ width len o refl refl refl (by_byte_store width len h))
  buffer_step-IsOwned (vec_store width capacity len) m h o =
      let boxed = into_boxed_slice-alloc_slice width capacity len m.heap in
      let f = new_backing_store_from_bytes width (alloc_slice allocate width len m.heap).0 len in
      (
        record { foreigns = f ∷ m.foreigns; heap = (alloc_slice allocate width len m.heap).1 },
        rw boxed refl,
        hand_over m f width len o refl refl refl (by_byte_store width len h),
      )
  buffer_step-IsOwned (external_string width len) m h o =
      (_, refl, hand_over m _ width len o refl refl refl tt)
  buffer_step-IsOwned (collect_buffer i) m h o = collect_found-IsOwned m i _ refl o

  -- From a memory in which the allocated blocks are those of the buffers that V8 has, any sequence of
  -- hand-overs and deletions in which the backing stores are over elements of one byte, or over none,
  -- makes only frees that the allocator allows, each block freed at most once and as it was allocated,
  -- and ends in such a memory again, so that nothing is left allocated for a deleted buffer. The vectors
  -- may have any capacity, and the external strings both widths.
  pub buffer_steps-IsOwned :
      (ops : List BufferOp) (m : Memory)
      → All IsOp ops
      → IsOwned m
      → (after : Memory) × (buffer_steps allocate ops m ≡ some after) × IsOwned after
  unfolding buffer_steps
  buffer_steps-IsOwned [] m h o = (m, refl, o)
  buffer_steps-IsOwned (op ∷ ops) m h o =
      let (next, one, kept) = buffer_step-IsOwned op m h.0 o in
      let (after, others, owned) = buffer_steps-IsOwned ops next h.1 kept in
      (after, rw (one, others) refl, owned)
