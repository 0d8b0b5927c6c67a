-- ===== src/Params/Kept.antt =====
-- The raw pointers of the parameters, and what keeps the memory that they lead to.
use rusty_v.Base.{
  ℕ, ◌+◌, ◌%◌, ◌^◌, ◌<◌, ◌≡◌, refl, ap, ◌∙◌, true, if◌then◌else◌, Bool-cases, inl, inr, List, [],
  ◌∷◌, ◌++◌, length, Option, none, some, arith,
}
use rusty_v.Params.{
  rust, null, block, values, startup, Cell, Memory, alloc, Cow, borrowed, owned, as_ptr,
  StartupData, data_ptr, Snapshot, References, drop_old_data, drop_old_header, drop_old_cow,
  set_snapshot, ends_null, into_owned, terminated, set_references,
}
use rusty_v.Params.Blocks.{
  Owners, one, Holds, Holds-same, Keeps, cow_blocks, data_blocks, cell, IsCow, IsData, IsCow-Keeps,
  IsData-Keeps, load-as_ptr, deref-IsData, alloc_lem, free_lem, drop_cow_lem, drop_data_lem,
}

abbrev pub i32_limit : ℕ
i32_limit = 2147483648

abbrev pub header_blocks : Option ℕ → Owners
header_blocks none q = 0
header_blocks (some h) q = one h q

abbrev pub kept_data_blocks : Option StartupData → Owners
kept_data_blocks none q = 0
kept_data_blocks (some d) q = data_blocks d q

abbrev pub kept_cow_blocks : Option Cow → Owners
kept_cow_blocks none q = 0
kept_cow_blocks (some c) q = cow_blocks c q

abbrev pub snapshot_blocks : Snapshot → Owners
snapshot_blocks s q = kept_data_blocks s.blob_data q + header_blocks s.blob_header q

abbrev pub references_blocks : References → Owners
references_blocks r q = kept_cow_blocks r.kept q

-- No snapshot, or a pointer to a header that is kept, with the address and the size of data that are.
pub data SnapshotOf (m : Memory) : Snapshot → Option (List ℕ) → Type 0 where
  no_snapshot : SnapshotOf m (record { raw = null; blob_data = none; blob_header = none }) none
  a_snapshot :
      (d : StartupData) (h : ℕ) (xs : List ℕ)
      → m.cells h ≡ cell rust (startup (data_ptr d) (length xs))
      → IsData m d xs
      → SnapshotOf m (record { raw = block h; blob_data = some d; blob_header = some h }) (some xs)

-- No references, or a pointer to references that are kept and end with the null pointer.
pub data ReferencesOf (m : Memory) : References → Option (List ℕ) → Type 0 where
  no_references : ReferencesOf m (record { raw = null; kept = none }) none
  some_references :
      (c : Cow) (xs : List ℕ)
      → IsCow m c xs
      → ends_null xs ≡ true
      → ReferencesOf m (record { raw = as_ptr c; kept = some c }) (some xs)

pub SnapshotOf-Keeps :
    {s : Snapshot} {g : Option (List ℕ)} (m m' : Memory)
    → Keeps (snapshot_blocks s) m m'
    → SnapshotOf m s g
    → SnapshotOf m' s g
SnapshotOf-Keeps m m' k no_snapshot = no_snapshot
SnapshotOf-Keeps m m' k (a_snapshot d h xs e i) =
    a_snapshot d h xs (k h (ground arith) ∙ e) (IsData-Keeps m m' d xs (λ q p. k q (omega arith)) i)

pub ReferencesOf-Keeps :
    {r : References} {g : Option (List ℕ)} (m m' : Memory)
    → Keeps (references_blocks r) m m'
    → ReferencesOf m r g
    → ReferencesOf m' r g
ReferencesOf-Keeps m m' k no_references = no_references
ReferencesOf-Keeps m m' k (some_references c xs i e) =
    some_references c xs (IsCow-Keeps m m' c xs k i) e

-- Dropping what keeps the snapshot.
pub drop_snapshot :
    {s : Snapshot} {g : Option (List ℕ)} (own : Owners) (m : Memory)
    → Holds (λ q. snapshot_blocks s q + own q) m
    → SnapshotOf m s g
    → (m₁ : Memory) × (m₂ : Memory) × (drop_old_data s.blob_data m ≡ some m₁)
      × (drop_old_header s.blob_header m₁ ≡ some m₂)
      × Holds own m₂
      × Keeps own m m₂
unfolding drop_old_data drop_old_header
drop_snapshot own m h no_snapshot =
    (m, m, refl, refl, Holds-same _ own m (λ q. omega arith) h, λ q p. refl)
drop_snapshot own m h (a_snapshot d b xs e i) =
    let (m₁, e₁, h₁, k₁) =
      drop_data_lem d xs (λ q. one b q + own q) m (Holds-same _ _ m (λ q. omega arith) h) i in
    let (m₂, e₂, h₂, k₂) = free_lem rust b _ own m₁ h₁ (k₁ b (ground arith) ∙ e) in
    (m₁, m₂, e₁, e₂, h₂, λ q p. k₂ q p ∙ k₁ q (omega arith))

pub drop_references :
    {r : References} {g : Option (List ℕ)} (own : Owners) (m : Memory)
    → Holds (λ q. references_blocks r q + own q) m
    → ReferencesOf m r g
    → (m' : Memory) × (drop_old_cow r.kept m ≡ some m') × Holds own m' × Keeps own m m'
unfolding drop_old_cow
drop_references own m h no_references =
    (m, refl, Holds-same _ own m (λ q. omega arith) h, λ q p. refl)
drop_references own m h (some_references c xs i e) = drop_cow_lem c xs own m h i

pub set_snapshot_lem :
    {s : Snapshot} {g : Option (List ℕ)} (d : StartupData) (xs : List ℕ) (own : Owners) (m : Memory)
    → Holds (λ q. data_blocks d q + (snapshot_blocks s q + own q)) m
    → IsData m d xs
    → length xs < i32_limit
    → SnapshotOf m s g
    → (s' : Snapshot) × (m' : Memory) × (set_snapshot d s m ≡ some (s', m'))
      × Holds (λ q. snapshot_blocks s' q + own q) m'
      × Keeps own m m'
      × SnapshotOf m' s' (some xs)
unfolding set_snapshot
set_snapshot_lem {s} d xs own m h i short o =
    let header : Cell = record {
      origin = rust;
      content = startup (data_ptr d) (length xs % 2 ^ 32);
    } in
    let small : length xs % 2 ^ 32 ≡ length xs = omega arith in
    let (h₁, e₁, k₁) = alloc_lem _ m header h in
    let b = (alloc header m).0 in
    let m₁ = (alloc header m).1 in
    let o₁ = SnapshotOf-Keeps m m₁ (λ q p. k₁ q (omega arith)) o in
    let rest : Owners = λ q. one b q + (data_blocks d q + own q) in
    let (m₂, m₃, e₂, e₃, h₃, k₃) =
      drop_snapshot rest m₁ (Holds-same _ _ m₁ (λ q. omega arith) h₁) o₁ in
    (
      record { raw = block b; blob_data = some d; blob_header = some b },
      m₃,
      rw (deref-IsData m d xs i, e₂, e₃),
      Holds-same _ _ m₃ (λ q. omega arith) h₃,
      λ q p. k₃ q (omega arith) ∙ k₁ q (omega arith),
      a_snapshot d b xs
          (k₃ b (ground arith) ∙ e₁ ∙ ap (λ n. cell rust (startup (data_ptr d) n)) small)
          (IsData-Keeps m m₃ d xs (λ q p. k₃ q (omega arith) ∙ k₁ q (omega arith)) i),
    )

-- The references that V8 is given.
abbrev pub with_null : List ℕ → List ℕ
with_null xs = if ends_null xs then xs else xs ++ (0 ∷ [])

ends_null-snoc : (xs : List ℕ) → ends_null (xs ++ (0 ∷ [])) ≡ true
unfolding ends_null
ends_null-snoc [] = refl
ends_null-snoc (x ∷ []) = refl
ends_null-snoc (x ∷ y ∷ rest) = ends_null-snoc (y ∷ rest)

ends_null-with_null : (xs : List ℕ) → ends_null (with_null xs) ≡ true
ends_null-with_null xs = elim (Bool-cases (ends_null xs)) [
  | inl e ↦ rw e e
  | inr e ↦ rw e (ends_null-snoc xs)
]

into_owned_lem :
    (c : Cow) (xs : List ℕ) (own : Owners) (m : Memory)
    → Holds (λ q. cow_blocks c q + own q) m
    → IsCow m c xs
    → Holds (λ q. one (into_owned c xs m).0 q + own q) (into_owned c xs m).1
      × ((into_owned c xs m).1.cells (into_owned c xs m).0 ≡ cell rust (values xs))
      × Keeps own m (into_owned c xs m).1
unfolding into_owned
into_owned_lem (owned b) xs own m h i = (h, i, λ q p. refl)
into_owned_lem (borrowed ys) xs own m h i =
    alloc_lem own m (record { origin = rust; content = values xs })
      (Holds-same _ own m (λ q. omega arith) h)

terminated_lem :
    (c : Cow) (xs : List ℕ) (own : Owners) (m : Memory)
    → Holds (λ q. cow_blocks c q + own q) m
    → IsCow m c xs
    → (c' : Cow) × (m' : Memory) × (terminated c xs m ≡ some (c', m'))
      × Holds (λ q. cow_blocks c' q + own q) m'
      × Keeps own m m'
      × IsCow m' c' (with_null xs)
unfolding terminated
terminated_lem c xs own m h i = elim (Bool-cases (ends_null xs)) [
  | inl e ↦ (c, m, rw e, h, λ q p. refl, rw e i)
  | inr e ↦
      let (h₁, e₁, k₁) = into_owned_lem c xs own m h i in
      let b = (into_owned c xs m).0 in
      let m₁ = (into_owned c xs m).1 in
      let vec : Cell = record { origin = rust; content = values (xs ++ (0 ∷ [])) } in
      let (h₂, e₂, k₂) = alloc_lem _ m₁ vec h₁ in
      let v = (alloc vec m₁).0 in
      let m₂ = (alloc vec m₁).1 in
      let rest : Owners = λ q. one v q + own q in
      let (m₃, e₃, h₃, k₃) =
        free_lem rust b (values xs) rest m₂ (Holds-same _ _ m₂ (λ q. omega arith) h₂)
          (k₂ b (ground arith) ∙ e₁) in
      (
        owned v,
        m₃,
        rw (e, e₃),
        h₃,
        λ q p. k₃ q (omega arith) ∙ k₂ q (omega arith) ∙ k₁ q p,
        rw e (k₃ v (ground arith) ∙ e₂),
      )
]

pub set_references_lem :
    {r : References} {g : Option (List ℕ)} (c : Cow) (xs : List ℕ) (own : Owners) (m : Memory)
    → Holds (λ q. cow_blocks c q + (references_blocks r q + own q)) m
    → IsCow m c xs
    → ReferencesOf m r g
    → (r' : References) × (m' : Memory) × (set_references c r m ≡ some (r', m'))
      × Holds (λ q. references_blocks r' q + own q) m'
      × Keeps own m m'
      × ReferencesOf m' r' (some (with_null xs))
unfolding set_references
set_references_lem {r} c xs own m h i o =
    let (c', m₁, e₁, h₁, k₁, i₁) = terminated_lem c xs (λ q. references_blocks r q + own q) m h i in
    let o₁ = ReferencesOf-Keeps m m₁ (λ q p. k₁ q (omega arith)) o in
    let (m₂, e₂, h₂, k₂) =
      drop_references (λ q. cow_blocks c' q + own q) m₁ (Holds-same _ _ m₁ (λ q. omega arith) h₁)
        o₁ in
    (
      record { raw = as_ptr c'; kept = some c' },
      m₂,
      rw (load-as_ptr m c xs i, e₁, e₂),
      h₂,
      λ q p. k₂ q (omega arith) ∙ k₁ q (omega arith),
      some_references c' (with_null xs)
          (IsCow-Keeps m₁ m₂ c' (with_null xs) (λ q p. k₂ q (omega arith)) i₁)
          (ends_null-with_null xs),
    )
