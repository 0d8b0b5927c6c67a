-- ===== src/Buffers/Widths.antt =====
-- The length that the deleter of a backing store is called with.
use native.Mathlib.Nat.{mul-le-mul_left}
use rusty_v.Base.{
  ℕ, zero, suc, ◌||◌, Option, ◌*◌, ◌<◌, ◌≤◌, ◌≡◌, inl, inr, refl, ◌∙◌, true, false, if◌then◌else◌,
  ◌==◌, ==-self, ==→≡, Bool-cases, List, [], ◌∷◌, none, some, arith,
}
use rusty_v.Buffers.{
  Block, dealloc, Memory, box_store, collect_buffer, drop_boxed_slice, byte_len, drop_raw,
  new_backing_store_from_bytes, delete_foreign, foreign_at, without_foreign, collect_found,
  alloc_slice, buffer_step, buffer_steps,
}

longer : (x width : ℕ) → 0 < x → 1 < width → x < x * width
longer x width h g = let two : x * 2 ≤ x * width = mul-le-mul_left x g in ground arith

no_shorter : (x width : ℕ) → 0 < width → x ≤ x * width
no_shorter x width h = let one : x * 1 ≤ x * width = mul-le-mul_left x h in ground arith

same_length : (x width : ℕ) → (x == 0) ≡ false → 0 < width → (x == x * width) ≡ true → width ≡ 1
same_length x width h g e = elim (Bool-cases (width == 1)) [
  | inl one ↦ ==→≡ width 1 one
  | inr more ↦
      let equal = ==→≡ x (x * width) e in
      let wide : 1 < width = ground arith in
      let some_left : 0 < x = ground arith in
      let apart = longer x width some_left wide in ground arith
]

no_elements : (width len : ℕ) → 0 < width → (len * width == 0) ≡ true → len ≡ 0
no_elements width len h e = let least = no_shorter len width h in ground arith

has_elements : (width len : ℕ) → (len * width == 0) ≡ false → (len == 0) ≡ false
has_elements width zero f = let nothing : 0 * width ≡ 0 = omega arith in absurd (ground arith)
has_elements width (suc len) f = ground arith

wider : (width len : ℕ) → (len * width == len * width * width) ≡ false → (width == 1) ≡ false
wider width len f = elim (Bool-cases (width == 1)) [
  | inl e ↦
      let one = ==→≡ width 1 e in
      let unit : len * width * width ≡ len * width = rw one (omega arith) in ground arith
  | inr e ↦ e
]

module _ (allocate : List Block → ℕ) where
  freed_as :
      (width len : ℕ) (m : Memory)
      → 0 < width
      → (len * width == 0) ≡ false
      → buffer_steps allocate (box_store width len ∷ collect_buffer 0 ∷ []) m
        ≡ (if len * width == len * width * width then some m else none)
  unfolding buffer_steps buffer_step collect_found foreign_at without_foreign delete_foreign
      drop_raw drop_boxed_slice dealloc alloc_slice new_backing_store_from_bytes byte_len
  freed_as width len m h e =
      let least = no_shorter (len * width) width h in
      let longer_left : (len * width * width == 0) ≡ false = ground arith in
      elim (Bool-cases (len * width == len * width * width)) [
        | inl same ↦ rw (e, longer_left, same, ==-self (allocate m.heap), ==-self width) refl
        | inr other ↦ rw (e, longer_left, other, ==-self (allocate m.heap)) refl
      ]

  freed_none :
      (width len : ℕ) (m : Memory)
      → (len * width == 0) ≡ true
      → buffer_steps allocate (box_store width len ∷ collect_buffer 0 ∷ []) m ≡ some m
  unfolding buffer_steps buffer_step collect_found foreign_at without_foreign delete_foreign
      drop_raw drop_boxed_slice dealloc alloc_slice new_backing_store_from_bytes byte_len
  freed_none width len m e =
      let none_left = ==→≡ (len * width) 0 e in
      let nothing : 0 * width ≡ 0 = omega arith in rw (none_left, nothing) refl

  -- A box of elements of at least one byte that is handed over and then deleted leaves the memory as it
  -- was where the elements have one byte or there are none. For all other boxes the delete makes a free
  -- that the allocator does not allow.
  pub box_store-freed :
      (width len : ℕ) (m : Memory)
      → 0 < width
      → buffer_steps allocate (box_store width len ∷ collect_buffer 0 ∷ []) m
        ≡ (if (width == 1) || (len == 0) then some m else none)
  box_store-freed width len m h = elim (Bool-cases (len * width == 0)) [
    | inl none_left ↦
        let empty = no_elements width len h none_left in
        let fits : (len == 0) ≡ true = ground arith in
        freed_none width len m none_left ∙ rw fits (ground arith)
    | inr some_left ↦ freed_as width len m h some_left ∙ by_width some_left
  ]
    where
      by_width :
          (len * width == 0) ≡ false
          → ◌≡◌ {A = Option Memory}
              (if len * width == len * width * width then some m else none)
              (if (width == 1) || (len == 0) then some m else none)
      by_width f =
          let left : (len == 0) ≡ false = has_elements width len f in
          elim (Bool-cases (len * width == len * width * width)) [
            | inl same ↦
                let one = same_length (len * width) width f h same in
                let fits : (width == 1) ≡ true = ground arith in rw (same, fits) refl
            | inr other ↦
                let is_wide : (width == 1) ≡ false = wider width len other in
                rw (other, is_wide, left) refl
          ]
