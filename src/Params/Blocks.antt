-- ===== src/Params/Blocks.antt =====
-- Which blocks are allocated, by the number of their owners, and what the steps on memory do to them.
use rusty_v.Base.{
  ℕ, ◌+◌, ◌<◌, ◌≤◌, ◌≡◌, refl, ap, ◌∙◌, true, if◌then◌else◌, ◌==◌, le→leb, List, length,
  take-length, Option, none, some, arith,
}
use rusty_v.Params.{
  Origin, rust, cpp, Content, values, Cell, Memory, alloc, free, load, Cow, borrowed, owned, as_ptr,
  drop_cow, StartupData, cpp_data, cow_data, deref, drop_data, same_origin,
}

-- How often each block is owned.
abbrev pub Owners : Type 0
Owners = ℕ → ℕ

abbrev pub one : ℕ → Owners
one b q = if b == q then 1 else 0

abbrev pub live : Memory → Owners
live m q = elim (m.cells q) [ none ↦ 0 | some c ↦ 1 ]

-- The allocated blocks are those with an owner, each of them with one, and new blocks are fresh.
pub record Holds (own : Owners) (m : Memory) : Type 0 where
  pub balanced : (q : ℕ) → live m q ≡ own q
  pub unused : (q : ℕ) → m.next ≤ q → m.cells q ≡ none

pub Holds-same :
    (own other : Owners) (m : Memory) → ((q : ℕ) → own q ≡ other q) → Holds own m → Holds other m
Holds-same own other m e h = record { balanced = λ q. h.balanced q ∙ e q; unused = h.unused }

-- What owned blocks hold stays.
abbrev pub Keeps : Owners → Memory → Memory → Type 0
Keeps own m m' = (q : ℕ) → 0 < own q → m'.cells q ≡ m.cells q

abbrev pub cow_blocks : Cow → Owners
cow_blocks (borrowed xs) q = 0
cow_blocks (owned b) q = one b q

abbrev pub data_blocks : StartupData → Owners
data_blocks (cpp_data b n) q = one b q
data_blocks (cow_data c) q = cow_blocks c q

abbrev pub cell : Origin → Content → Option Cell
cell o c = some (record { origin = o; content = c })

-- A slice with these values.
abbrev pub IsCow : Memory → Cow → List ℕ → Type 0
IsCow m (borrowed ys) xs = ys ≡ xs
IsCow m (owned b) xs = m.cells b ≡ cell rust (values xs)

abbrev pub IsData : Memory → StartupData → List ℕ → Type 0
IsData m (cpp_data b n) xs = (m.cells b ≡ cell cpp (values xs)) × (n ≡ length xs)
IsData m (cow_data c) xs = IsCow m c xs

pub IsCow-Keeps :
    (m m' : Memory) (c : Cow) (xs : List ℕ)
    → Keeps (cow_blocks c) m m'
    → IsCow m c xs
    → IsCow m' c xs
IsCow-Keeps m m' (borrowed ys) xs k h = h
IsCow-Keeps m m' (owned b) xs k h = k b (ground arith) ∙ h

pub IsData-Keeps :
    (m m' : Memory) (d : StartupData) (xs : List ℕ)
    → Keeps (data_blocks d) m m'
    → IsData m d xs
    → IsData m' d xs
IsData-Keeps m m' (cpp_data b n) xs k h = (k b (ground arith) ∙ h.0, h.1)
IsData-Keeps m m' (cow_data c) xs k h = IsCow-Keeps m m' c xs k h

pub load-as_ptr : (m : Memory) (c : Cow) (xs : List ℕ) → IsCow m c xs → load m (as_ptr c) ≡ some xs
unfolding load as_ptr
load-as_ptr m (borrowed ys) xs h = ap some h
load-as_ptr m (owned b) xs h = rw h

pub deref-IsData :
    (m : Memory) (d : StartupData) (xs : List ℕ) → IsData m d xs → deref m d ≡ some xs
unfolding deref
deref-IsData m (cpp_data b n) xs h =
    rw (h.0, h.1, le→leb (length xs) (length xs) (omega arith), take-length xs)
deref-IsData m (cow_data c) xs h = load-as_ptr m c xs h

pub alloc_lem :
    (own : Owners) (m : Memory) (c : Cell)
    → Holds own m
    → Holds (λ q. one (alloc c m).0 q + own q) (alloc c m).1
      × ((alloc c m).1.cells (alloc c m).0 ≡ some c)
      × Keeps own m (alloc c m).1
unfolding alloc
alloc_lem own m c h = (
  record {
    balanced = λ q. ground (arith, h.balanced q, h.unused q);
    unused = λ q e. ground (arith, h.unused q);
  },
  ground arith,
  λ q e. ground (arith, h.balanced q, h.unused q),
)

same_origin_self : (o : Origin) → same_origin o o ≡ true
same_origin_self rust = refl
same_origin_self cpp = refl

pub free_lem :
    (o : Origin) (b : ℕ) (c : Content) (own : Owners) (m : Memory)
    → Holds (λ q. one b q + own q) m
    → m.cells b ≡ cell o c
    → (m' : Memory) × (free o b m ≡ some m') × Holds own m' × Keeps own m m'
unfolding free
free_lem o b c own m h e =
    let live_b : live m b ≡ 1 = rw (live, e) in
    (
      record m { cells = λ q. if b == q then none else m.cells q },
      rw (e, same_origin_self o),
      record {
        balanced = λ q. ground (arith, h.balanced q);
        unused = λ q p. ground (arith, h.unused q);
      },
      λ q p. ground (arith, h.balanced q),
    )

pub drop_cow_lem :
    (c : Cow) (xs : List ℕ) (own : Owners) (m : Memory)
    → Holds (λ q. cow_blocks c q + own q) m
    → IsCow m c xs
    → (m' : Memory) × (drop_cow c m ≡ some m') × Holds own m' × Keeps own m m'
unfolding drop_cow
drop_cow_lem (borrowed ys) xs own m h e =
    (m, refl, Holds-same _ own m (λ q. omega arith) h, λ q p. refl)
drop_cow_lem (owned b) xs own m h e = free_lem rust b (values xs) own m h e

pub drop_data_lem :
    (d : StartupData) (xs : List ℕ) (own : Owners) (m : Memory)
    → Holds (λ q. data_blocks d q + own q) m
    → IsData m d xs
    → (m' : Memory) × (drop_data d m ≡ some m') × Holds own m' × Keeps own m m'
unfolding drop_data
drop_data_lem (cpp_data b n) xs own m h e = free_lem cpp b (values xs) own m h e.0
drop_data_lem (cow_data c) xs own m h e = drop_cow_lem c xs own m h e
