-- ===== src/Serializer/Released.antt =====
-- What a serializer releases and frees.
use rusty_v.Base.{
  ℕ, zero, suc, ◌+◌, ◌≡◌, ◌≤◌, ◌<◌, ◌⊎◌, inl, inr, refl, ap, ◌∙◌, Bool, true, false, ◌||◌,
  Bool-cases, if◌then◌else◌, ◌==◌, le→leb, List, [], ◌∷◌, ◌++◌, length, take, take-length,
  length-append, subst, none, some, arith,
}
use rusty_v.Serializer.{
  Heap, new_heap, max_layout, is_layout, Request, grow, write, release, alloc_buffer,
  realloc_buffer, reallocate_buffer_memory, keep_answer, write_to, vec_of, release_buffer, serve,
  serve_all, free_buffer_memory, serializer_life,
}

-- What V8 asks for, when it has a buffer of this capacity with these bytes in it, or none: what has been
-- written has room, and an allocation fails only where there is no buffer.
abbrev pub Permitted : ℕ → List ℕ → List Request → Type 0
Permitted c w [] = Unit
Permitted c w (grow ok n ∷ todo) =
    (0 < n)
    × (n ≤ max_layout)
    × (length w ≤ n)
    × ((ok ≡ true) ⊎ (c ≡ 0))
    × Permitted (if ok then n else c) w todo
Permitted c w (write xs ∷ todo) = (0 < c) × (length w + length xs ≤ c) × Permitted c (w ++ xs) todo
Permitted c w (release ∷ todo) = Permitted 0 [] todo

-- What has been written, from each release to the next.
abbrev pub texts : List ℕ → List Request → List (List ℕ)
texts w [] = []
texts w (grow ok n ∷ todo) = texts w todo
texts w (write xs ∷ todo) = texts (w ++ xs) todo
texts w (release ∷ todo) = w ∷ texts [] todo

-- The heap of a serializer with a buffer of this capacity, or none, and these bytes in it.
data IsHeap : ℕ → List ℕ → Heap → Type 0 where
  without : (n : ℕ) → IsHeap 0 [] (record { buffer_size = n; buffer = none; capacity = 0 })
  with_buffer :
      (c : ℕ) (w : List ℕ)
      → 0 < c
      → length w ≤ c
      → IsHeap c w
          (record { buffer_size = c; buffer = some (record { size = c; bytes = w }); capacity = c })

is_layout_lem : (n : ℕ) → 0 < n → n ≤ max_layout → is_layout n ≡ true
unfolding is_layout
is_layout_lem n p q = ground arith

freed : (c : ℕ) (w : List ℕ) (h : Heap) → IsHeap c w h → free_buffer_memory h.buffer h ≡ some h
unfolding free_buffer_memory
freed c w h (without n) = refl
freed c w h (with_buffer c₁ w₁ p q) = ground arith

take_whole : (n : ℕ) (w : List ℕ) → length w ≤ n → take n w ≡ w
take_whole zero [] l = refl
take_whole zero (x ∷ w) l = ground arith
take_whole (suc n) [] l = refl
take_whole (suc n) (x ∷ w) l = ap (λ r. x ∷ r) (take_whole n w (omega arith))

realloc_lem :
    (c n : ℕ) (w : List ℕ)
    → 0 < n
    → n ≤ max_layout
    → length w ≤ n
    → realloc_buffer true (record { size = c; bytes = w }) c n
      ≡ some (some (record { size = n; bytes = w }))
unfolding realloc_buffer
realloc_lem c n w a b l = rw (take_whole n w l, is_layout_lem n a b) (ground arith)

vec_lem :
    (c : ℕ) (w : List ℕ)
    → length w ≤ c
    → vec_of (record { size = c; bytes = w }) (length w) c ≡ some w
unfolding vec_of
vec_lem c w q = rw (take-length w) (ground arith)

==-self : (n : ℕ) → (n == n) ≡ true
==-self n = ground arith

serve_all-then :
    (a : Request) (todo : List Request) (h h₁ h₂ : Heap) (vs ws : List (List ℕ))
    → serve a h ≡ some (vs, h₁)
    → serve_all todo h₁ ≡ some (ws, h₂)
    → serve_all (a ∷ todo) h ≡ some (vs ++ ws, h₂)
unfolding serve_all
serve_all-then a todo h h₁ h₂ vs ws e k = rw (e, k) refl

-- The bytes after an action, and the capacity.
abbrev after : Request → ℕ → List ℕ → ℕ × List ℕ
after (grow ok n) c w = (if ok then n else c, w)
after (write xs) c w = (c, w ++ xs)
after release c w = (0, [])

-- What an action releases.
abbrev now : Request → List ℕ → List (List ℕ)
now (grow ok n) w = []
now (write xs) w = []
now release w = w ∷ []

abbrev Allowed : ℕ → List ℕ → Request → Type 0
Allowed c w (grow ok n) = (0 < n) × (n ≤ max_layout) × (length w ≤ n) × ((ok ≡ true) ⊎ (c ≡ 0))
Allowed c w (write xs) = (0 < c) × (length w + length xs ≤ c)
Allowed c w release = Unit

serve_lem :
    (a : Request) (c : ℕ) (w : List ℕ) (h : Heap)
    → IsHeap c w h
    → Allowed c w a
    → (h' : Heap) × (serve a h ≡ some (now a w, h')) × IsHeap (after a c w).0 (after a c w).1 h'
unfolding serve reallocate_buffer_memory alloc_buffer realloc_buffer keep_answer write_to
    release_buffer vec_of
serve_lem (grow true n) c w h (without k) (a, b, l, o) =
    (_, rw (is_layout_lem n a b) refl, with_buffer n [] a l)
serve_lem (grow false n) c w h (without k) (a, b, l, o) =
    (_, rw (is_layout_lem n a b) refl, without n)
serve_lem (grow true n) c w h (with_buffer c₁ w₁ p q) (a, b, l, o) =
    (_, rw (realloc_lem c₁ n w₁ a b l) refl, with_buffer n w₁ a l)
serve_lem (grow false n) c w h (with_buffer c₁ w₁ p q) (a, b, l, o) = absurd (ground arith)
serve_lem (write xs) c w h (without k) (a, b) = absurd (omega arith)
serve_lem (write xs) c w h (with_buffer c₁ w₁ p q) (a, b) = (
  _,
  rw (le→leb (length w₁ + length xs) c₁ b) refl,
  with_buffer c₁ (w₁ ++ xs) p (rw (length-append w₁ xs) b),
)
serve_lem release c w h (without k) u = (_, refl, without 0)
serve_lem release c w h (with_buffer c₁ w₁ p q) u = (_, rw (vec_lem c₁ w₁ q) refl, without 0)

allowed :
    (a : Request) (todo : List Request) (c : ℕ) (w : List ℕ)
    → Permitted c w (a ∷ todo)
    → Allowed c w a
allowed (grow ok n) todo c w p = (p.0, p.1, p.2, p.3)
allowed (write xs) todo c w p = (p.0, p.1)
allowed release todo c w p = tt

rest-Permitted :
    (a : Request) (todo : List Request) (c : ℕ) (w : List ℕ)
    → Permitted c w (a ∷ todo)
    → Permitted (after a c w).0 (after a c w).1 todo
rest-Permitted (grow ok n) todo c w p = p.4
rest-Permitted (write xs) todo c w p = p.2
rest-Permitted release todo c w p = p

texts-then :
    (a : Request) (todo : List Request) (c : ℕ) (w : List ℕ)
    → now a w ++ texts (after a c w).1 todo ≡ texts w (a ∷ todo)
texts-then (grow ok n) todo c w = refl
texts-then (write xs) todo c w = refl
texts-then release todo c w = refl

-- The capacity in the end.
abbrev pub capacity_after : ℕ → List Request → ℕ
capacity_after c [] = c
capacity_after c (grow ok n ∷ todo) = capacity_after (if ok then n else c) todo
capacity_after c (write xs ∷ todo) = capacity_after c todo
capacity_after c (release ∷ todo) = capacity_after 0 todo

capacity-then :
    (a : Request) (todo : List Request) (c : ℕ) (w : List ℕ)
    → capacity_after (after a c w).0 todo ≡ capacity_after c (a ∷ todo)
capacity-then (grow ok n) todo c w = refl
capacity-then (write xs) todo c w = refl
capacity-then release todo c w = refl

serve_all_lem :
    (todo : List Request) (c : ℕ) (w : List ℕ) (h : Heap)
    → IsHeap c w h
    → Permitted c w todo
    → (w' : List ℕ) × (h' : Heap) × (serve_all todo h ≡ some (texts w todo, h'))
      × IsHeap (capacity_after c todo) w' h'
unfolding serve_all
serve_all_lem [] c w h i p = (w, h, refl, i)
serve_all_lem (a ∷ todo) c w h i p =
    let (h₁, e, i₁) = serve_lem a c w h i (allowed a todo c w p) in
    let (w', h', k, i') = serve_all_lem todo _ _ h₁ i₁ (rest-Permitted a todo c w p) in
    (
      w',
      h',
      serve_all-then a todo h h₁ h' (now a w) (texts (after a c w).1 todo) e k
          ∙ rw (texts-then a todo c w) refl,
      subst (λ n. IsHeap n w' h') (capacity-then a todo c w) i',
    )

-- Whether a growth of a buffer that fails is harmless: there is none, or it has the size asked for.
abbrev pub is_harmless : ℕ → ℕ → Bool
is_harmless c n = (c == 0) || (n == c)

-- A growth of a buffer that fails leaves its size as it was, and the size in the heap changed.
failed_growth :
    (c n : ℕ) (w : List ℕ) (h : Heap)
    → IsHeap c w h
    → 0 < n
    → n ≤ max_layout
    → (h' : Heap) × (serve (grow false n) h ≡ some ([], h'))
      × (free_buffer_memory h'.buffer h' ≡ (if is_harmless c n then some h' else none))
unfolding serve reallocate_buffer_memory alloc_buffer realloc_buffer keep_answer free_buffer_memory
failed_growth c n w h (without k) a b =
    (record { buffer_size = n; buffer = none; capacity = 0 }, rw (is_layout_lem n a b) refl, refl)
failed_growth c n w h (with_buffer c₁ w₁ r q) a b = (
  record { buffer_size = n; buffer = some (record { size = c₁; bytes = w₁ }); capacity = c₁ },
  rw (is_layout_lem n a b, ==-self c₁) refl,
  ground arith,
)

failing :
    (todo : List Request) (c n : ℕ) (w : List ℕ) (h : Heap)
    → IsHeap c w h
    → Permitted c w todo
    → 0 < n
    → n ≤ max_layout
    → (h' : Heap) × (serve_all (todo ++ (grow false n ∷ [])) h ≡ some (texts w todo, h'))
      × (free_buffer_memory h'.buffer h'
          ≡ (if is_harmless (capacity_after c todo) n then some h' else none))
unfolding serve_all
failing [] c n w h i p a b = let (h', e, k) = failed_growth c n w h i a b in (h', rw e refl, k)
failing (x ∷ todo) c n w h i p a b =
    let (h₁, e, i₁) = serve_lem x c w h i (allowed x todo c w p) in
    let (h', k, f) = failing todo _ n _ h₁ i₁ (rest-Permitted x todo c w p) a b in
    (
      h',
      serve_all-then x (todo ++ (grow false n ∷ [])) h h₁ h' (now x w) (texts (after x c w).1 todo)
            e k
          ∙ rw (texts-then x todo c w) refl,
      subst (λ m. free_buffer_memory h'.buffer h' ≡ (if is_harmless m n then some h' else none))
          (capacity-then x todo c w) f,
    )

-- From the making of a serializer to its drop, whatever V8 asks for, of 1 byte to isize::MAX each time and
-- not less than it has written, and whatever it writes where there is room, with releases between: if no
-- growth of a buffer that is there fails, each vector that is released has the bytes written since the
-- one before and the capacity that was allocated, and the drop frees the buffer with its own layout. If
-- then a growth fails, the drop is as good where there is no buffer, or one of just the size asked
-- for, and otherwise frees the buffer with a wrong layout.
pub serializer_life_lem :
    (todo : List Request) (n : ℕ)
    → Permitted 0 [] todo
    → 0 < n
    → n ≤ max_layout
    → (serializer_life todo ≡ some (texts [] todo))
      × (serializer_life (todo ++ (grow false n ∷ []))
          ≡ (if is_harmless (capacity_after 0 todo) n then some (texts [] todo) else none))
unfolding serializer_life new_heap
serializer_life_lem todo n p a b =
    let (w', h', e, i) = serve_all_lem todo 0 [] _ (without 0) p in
    let (h'', k, f) = failing todo 0 n [] _ (without 0) p a b in
    (
      rw (e, freed _ w' h' i) refl,
      rw (k, f)
          (elim (Bool-cases (is_harmless (capacity_after 0 todo) n)) [
            | inl y ↦ rw y refl
            | inr y ↦ rw y refl
          ]),
    )
