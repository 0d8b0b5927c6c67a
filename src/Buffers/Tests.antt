-- ===== src/Buffers/Tests.antt =====
-- Buffers at concrete sizes, over an allocator that hands out the first address above all others.
use rusty_v.Base.{ℕ, suc, ◌+◌, ◌<◌, ◌≡◌, inl, inr, refl, false, List, [], ◌∷◌, none, some, arith}
use rusty_v.Buffers.{
  Block, has_block, IsAllocator, drop_rawable, Memory, BufferOp, box_store, external_string,
  vec_store, collect_buffer, buffer_steps,
}
use rusty_v.Buffers.Freed.{blocks_of, AreDistinct, IsOwned, buffer_steps-IsOwned}
use rusty_v.Buffers.Widths.{box_store-freed}

abbrev addresses : List Block → ℕ
addresses [] = 0
addresses (b ∷ rest) = b.address + addresses rest

abbrev above_all : List Block → ℕ
above_all heap = suc (addresses heap)

has_block-above : (a : ℕ) (heap : List Block) → addresses heap < a → has_block a heap ≡ false
has_block-above a [] h = refl
has_block-above a (b ∷ rest) h = let others = has_block-above a rest in ground arith

abbrev above_all-IsAllocator : IsAllocator above_all
above_all-IsAllocator = record {
  is_fresh = λ heap. has_block-above (above_all heap) heap (omega arith);
}

abbrev no_memory : Memory
no_memory = record { foreigns = []; heap = [] }

no_memory-IsOwned : IsOwned no_memory
unfolding blocks_of AreDistinct
no_memory-IsOwned = record { blocks = refl; distinct = tt; by_byte = tt }

abbrev handed_over : List BufferOp
handed_over =
    box_store 1 5 ∷ external_string 2 3 ∷ vec_store 1 8 4 ∷ collect_buffer 1 ∷ box_store 8 0 ∷ []

handed_over-length :
    buffer_steps above_all handed_over no_memory
    ≡ some (record {
      foreigns =
          record { pointer = 8; length = 0; deleter = drop_rawable 8 }
          ∷ record { pointer = 4; length = 4; deleter = drop_rawable 1 }
          ∷ record { pointer = 1; length = 5; deleter = drop_rawable 1 }
          ∷ [];
      heap =
          record { address = 4; bytes = 4; align = 1 }
          ∷ record { address = 1; bytes = 5; align = 1 }
          ∷ [];
    })
unfolding buffer_steps
handed_over-length = refl

buffer_steps-IsOwned_example :
    (after : Memory) × (buffer_steps above_all handed_over no_memory ≡ some after) × IsOwned after
buffer_steps-IsOwned_example =
    buffer_steps-IsOwned above_all above_all-IsAllocator handed_over no_memory
      (inl refl, (tt, (inl refl, (tt, (inr refl, tt))))) no_memory-IsOwned

box_store-freed_example :
    buffer_steps above_all (box_store 2 3 ∷ collect_buffer 0 ∷ []) no_memory ≡ none
box_store-freed_example = box_store-freed above_all 2 3 no_memory (omega arith)
