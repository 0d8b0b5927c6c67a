-- ===== src/Flags/Sets.antt =====
-- A value of a flag type is a set of flags.
use rusty_v.Base.{
  ℕ, ◌<◌, ◌==◌, ◌≡◌, refl, ap, Bool, true, false, not, ◌&&◌, ◌||◌, if◌then◌else◌, List, [], ◌∷◌,
  holds_below, holds_below_lem, ltb, ==→≡, ltb→lt, arith,
}
use rusty_v.Flags.{bitor}
use rusty_v.Flags.Attribute.{attribute_answers, attribute_flags, is_no_attributes}
use rusty_v.Flags.Filter.{filter_answers, filter_flags, is_all_properties}
use rusty_v.Flags.Handler.{handler_answers, handler_flags, is_no_handler_flags}

-- Sets as lists of answers: the union, the empty set, and the value made from the constants by `|`.
abbrev pub union : List Bool → List Bool → List Bool
union [] bs = []
union (a ∷ as') [] = []
union (a ∷ as') (b ∷ bs) = (a || b) ∷ union as' bs

abbrev pub is_empty : List Bool → Bool
is_empty [] = true
is_empty (a ∷ as') = not a && is_empty as'

abbrev pub made_of : List ℕ → List Bool → ℕ
unfolding bitor
made_of [] as' = 0
made_of (f ∷ fs) [] = 0
made_of (f ∷ fs) (a ∷ as') = bitor (if a then f else 0) (made_of fs as')

abbrev same : List Bool → List Bool → Bool
same [] [] = true
same (true ∷ as') (true ∷ bs) = same as' bs
same (false ∷ as') (false ∷ bs) = same as' bs
same _ _ = false

same-eq : (as' bs : List Bool) → same as' bs ≡ true → as' ≡ bs
same-eq [] [] h = refl
same-eq (true ∷ as') (true ∷ bs) h = ap (λ t. true ∷ t) (same-eq as' bs h)
same-eq (false ∷ as') (false ∷ bs) h = ap (λ t. false ∷ t) (same-eq as' bs h)
same-eq _ _ h = cc

abbrev agree : Bool → Bool → Bool
agree true b = b
agree false b = not b

agree-eq : (a b : Bool) → agree a b ≡ true → a ≡ b
agree-eq a b h = ground arith

-- Values below a limit stand for the sets of the flags, and `|` for their union.
abbrev pub IsSetAlgebra : ℕ → List ℕ → (ℕ → Bool) → (ℕ → List Bool) → ℕ → ℕ → Type 0
IsSetAlgebra limit flags is_none answers a b =
    (answers (bitor a b) ≡ union (answers a) (answers b))
    × (bitor a b < limit)
    × (made_of flags (answers a) ≡ a)
    × (is_none a ≡ is_empty (answers a))

abbrev law : ℕ → List ℕ → (ℕ → Bool) → (ℕ → List Bool) → ℕ → ℕ → Bool
law limit flags is_none answers a b =
    same (answers (bitor a b)) (union (answers a) (answers b))
    && (ltb (bitor a b) limit
        && ((made_of flags (answers a) == a) && agree (is_none a) (is_empty (answers a))))

and-both : (a b : Bool) → (a && b) ≡ true → (a ≡ true) × (b ≡ true)
and-both a b h = ground arith

law-IsSetAlgebra :
    (limit : ℕ) (flags : List ℕ) (is_none : ℕ → Bool) (answers : ℕ → List Bool) (a b : ℕ)
    → law limit flags is_none answers a b ≡ true
    → IsSetAlgebra limit flags is_none answers a b
law-IsSetAlgebra limit flags is_none answers a b h =
    let (joined, h1) = and-both _ _ h in
    let (below, h2) = and-both _ _ h1 in
    let (back, empty) = and-both _ _ h2 in
    (same-eq _ _ joined, ltb→lt _ _ below, ==→≡ _ _ back, agree-eq _ _ empty)

every_pair-IsSetAlgebra :
    (limit : ℕ) (flags : List ℕ) (is_none : ℕ → Bool) (answers : ℕ → List Bool)
    → holds_below (λ a. holds_below (λ b. law limit flags is_none answers a b) limit) limit ≡ true
    → (a b : ℕ) → a < limit
    → b < limit
    → IsSetAlgebra limit flags is_none answers a b
every_pair-IsSetAlgebra limit flags is_none answers table a b ha hb =
    law-IsSetAlgebra limit flags is_none answers a b (
      holds_below_lem (λ b. law limit flags is_none answers a b) limit b hb
        (holds_below_lem (λ a. holds_below (λ b. law limit flags is_none answers a b) limit) limit a
          ha table))

attribute_table :
    holds_below
      (λ a. holds_below (λ b. law 8 attribute_flags is_no_attributes attribute_answers a b) 8)
      8
    ≡ true
unfolding holds_below attribute_answers bitor made_of is_no_attributes
attribute_table = refl

filter_table :
    holds_below
      (λ a. holds_below (λ b. law 32 filter_flags is_all_properties filter_answers a b) 32)
      32
    ≡ true
unfolding holds_below filter_answers bitor made_of is_all_properties
filter_table = refl

handler_table :
    holds_below
      (λ a. holds_below (λ b. law 8 handler_flags is_no_handler_flags handler_answers a b) 8)
      8
    ≡ true
unfolding holds_below handler_answers bitor made_of is_no_handler_flags
handler_table = refl

-- The values of each of the three types that have no other bits, below 8 or 32, stand for the sets of its constants:
-- the predicates of `a | b` answer yes where those of `a` or of `b` do, it has no other bits, the
-- constants of the predicates that answer yes make up the value by `|`, and the test for none of them,
-- which for filters is is_all_properties, holds just where no predicate does.
pub flags-IsSetAlgebra :
    (a b f g : ℕ)
    → a < 8
    → b < 8
    → f < 32
    → g < 32
    → IsSetAlgebra 8 attribute_flags is_no_attributes attribute_answers a b
      × IsSetAlgebra 32 filter_flags is_all_properties filter_answers f g
      × IsSetAlgebra 8 handler_flags is_no_handler_flags handler_answers a b
flags-IsSetAlgebra a b f g ha hb hf hg = (
  every_pair-IsSetAlgebra 8 attribute_flags is_no_attributes attribute_answers attribute_table a b
      ha hb,
  every_pair-IsSetAlgebra 32 filter_flags is_all_properties filter_answers filter_table f g hf hg,
  every_pair-IsSetAlgebra 8 handler_flags is_no_handler_flags handler_answers handler_table a b ha
      hb,
)
