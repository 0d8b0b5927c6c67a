-- ===== src/Base/Lists.antt =====
-- Slices and buffers as lists with native indices.
use Prim.Native.Nat.{ℕ, zero, suc, ◌+◌, ◌≤◌, ◌<◌}
use mathlib.Core.Path.{◌≡◌, refl, ap}
use mathlib.Core.Bool.{Bool, true, ◌&&◌}
use mathlib.Core.Option.{Option, none, some}
use mathlib.Core.List.{List, [], ◌∷◌, ◌++◌, append_assoc}
use native.Mathlib.Numerals.{add-one, towards_suc}
use native.Mathlib.Omega.{arith}

module _ {ℓ} {A : Type ℓ} where
  abbrev pub length : List A → ℕ
  length [] = 0
  length (x ∷ xs) = suc (length xs)

  abbrev pub get_elem? : List A → ℕ → Option A
  get_elem? [] i = none
  get_elem? (x ∷ xs) zero = some x
  get_elem? (x ∷ xs) (suc i) = get_elem? xs i

  abbrev pub take : ℕ → List A → List A
  take zero xs = []
  take (suc n) [] = []
  take (suc n) (x ∷ xs) = x ∷ take n xs

  abbrev pub drop : ℕ → List A → List A
  drop zero xs = xs
  drop (suc n) [] = []
  drop (suc n) (x ∷ xs) = drop n xs

  -- A write through a pointer; `none` is a write past the end of the allocation.
  abbrev pub write_at : List A → ℕ → A → Option (List A)
  write_at [] i v = none
  write_at (x ∷ xs) zero v = some (v ∷ xs)
  write_at (x ∷ xs) (suc i) v = elim (write_at xs i v) [ none ↦ none | some ys ↦ some (x ∷ ys) ]

  abbrev pub all : (A → Bool) → List A → Bool
  all p [] = true
  all p (x ∷ xs) = p x && all p xs

  -- `P` holds of each element.
  abbrev pub All {κ} : (A → Type κ) → List A → Type κ
  All P [] = Unit
  All P (x ∷ xs) = P x × All P xs

  pub length-append : (xs ys : List A) → length (xs ++ ys) ≡ length xs + length ys
  length-append [] ys = omega arith
  length-append (x ∷ xs) ys = omega (arith, length-append xs ys)

  pub get_elem?-append : (xs ys : List A) (v : A) → get_elem? (xs ++ (v ∷ ys)) (length xs) ≡ some v
  get_elem?-append [] ys v = refl
  get_elem?-append (x ∷ xs) ys v = get_elem?-append xs ys v

  pub write_at-append :
      (xs ys : List A) (u v : A) → write_at (xs ++ (u ∷ ys)) (length xs) v ≡ some (xs ++ (v ∷ ys))
  write_at-append [] ys u v = refl
  write_at-append (x ∷ xs) ys u v = ground (arith, write_at-append xs ys u v)

  pub take-append : (xs ys : List A) → take (length xs) (xs ++ ys) ≡ xs
  take-append [] ys = refl
  take-append (x ∷ xs) ys = ap (λ t. x ∷ t) (take-append xs ys)

  pub take-length : (xs : List A) → take (length xs) xs ≡ xs
  take-length [] = refl
  take-length (x ∷ xs) = ap (λ t. x ∷ t) (take-length xs)

  pub length-drop : (n : ℕ) (xs : List A) → n ≤ length xs → length (drop n xs) + n ≡ length xs
  length-drop zero xs h = omega arith
  length-drop (suc n) [] h = absurd (omega arith)
  length-drop (suc n) (x ∷ xs) h = omega (arith, length-drop n xs (omega arith))

  pub snoc-append : (xs ys : List A) (v : A) → (xs ++ (v ∷ [])) ++ ys ≡ xs ++ (v ∷ ys)
  snoc-append xs ys v = append_assoc xs (v ∷ []) ys

  -- Reading where `drop` shows a value, and what a write leaves below and at its index.
  pub drop-cons :
      (xs : List A) (i : ℕ) (x : A) (rest : List A)
      → drop i xs ≡ x ∷ rest
      → (get_elem? xs i ≡ some x) × (drop (i + 1) xs ≡ rest)
  drop-cons [] zero x rest e = cc
  drop-cons [] (suc i) x rest e = cc
  drop-cons (y ∷ ys) zero x rest e = ground arith
  drop-cons (y ∷ ys) (suc i) x rest e =
      let (read, after) = drop-cons ys i x rest e in (read, simp towards_suc (rw add-one at after))

  pub drop-length : (xs : List A) → drop (length xs) xs ≡ []
  drop-length [] = refl
  drop-length (x ∷ xs) = drop-length xs

  pub write_at_lem :
      (xs : List A) (i : ℕ) (v : A)
      → i < length xs
      → (ys : List A) × (write_at xs i v ≡ some ys)
        × (length ys ≡ length xs)
        × (take (suc i) ys ≡ take i xs ++ (v ∷ []))
  write_at_lem [] i v h = absurd (omega arith)
  write_at_lem (x ∷ xs) zero v h = (v ∷ xs, refl, refl, refl)
  write_at_lem (x ∷ xs) (suc i) v h =
      let (ys, e, same, below) = write_at_lem xs i v (omega arith) in
      (x ∷ ys, rw e, ap suc same, ap (λ t. x ∷ t) below)

  pub take-append-drop : (n : ℕ) (xs : List A) → take n xs ++ drop n xs ≡ xs
  take-append-drop zero xs = refl
  take-append-drop (suc n) [] = refl
  take-append-drop (suc n) (x ∷ xs) = ap (λ t. x ∷ t) (take-append-drop n xs)

  pub length-take : (n : ℕ) (xs : List A) → n ≤ length xs → length (take n xs) ≡ n
  length-take zero xs h = refl
  length-take (suc n) [] h = absurd (omega arith)
  length-take (suc n) (x ∷ xs) h = omega (arith, length-take n xs (omega arith))

  pub All-take {κ} : (P : A → Type κ) (n : ℕ) (xs : List A) → All P xs → All P (take n xs)
  All-take P zero xs h = tt
  All-take P (suc n) [] h = tt
  All-take P (suc n) (x ∷ xs) h = (h.0, All-take P n xs h.1)

  pub All-drop {κ} : (P : A → Type κ) (n : ℕ) (xs : List A) → All P xs → All P (drop n xs)
  All-drop P zero xs h = h
  All-drop P (suc n) [] h = tt
  All-drop P (suc n) (x ∷ xs) h = All-drop P n xs h.1

  pub All-append_inv {κ} :
      (P : A → Type κ) (xs ys : List A) → All P (xs ++ ys) → All P xs × All P ys
  All-append_inv P [] ys h = (tt, h)
  All-append_inv P (x ∷ xs) ys h =
      let (left, right) = All-append_inv P xs ys h.1 in ((h.0, left), right)

  abbrev pub replicate : ℕ → A → List A
  replicate zero v = []
  replicate (suc n) v = v ∷ replicate n v

  pub length-replicate : (n : ℕ) (v : A) → length (replicate n v) ≡ n
  length-replicate zero v = refl
  length-replicate (suc n) v = ap suc (length-replicate n v)
