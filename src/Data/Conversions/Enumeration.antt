-- ===== src/Data/Conversions/Enumeration.antt =====
-- Laws of the classes by a check of every class.
use rusty_v.Base.{ℕ, zero, suc, ◌≡◌, refl, Bool, true, List, [], ◌∷◌, some, get_elem?, all, arith}
use rusty_v.Data.Classes.{Class, index, data_class}
use rusty_v.Data.Table.{classes}

pub class-index : (c : Class) → get_elem? classes (index c) ≡ some c
class-index data_class = refl
class-index _ = refl

all_lem :
    (law : Class → Bool) (cs : List Class) (i : ℕ) (c : Class)
    → all law cs ≡ true
    → get_elem? cs i ≡ some c
    → law c ≡ true
all_lem law [] i c h e = cc
all_lem law (a ∷ rest) zero c h e = ground arith
all_lem law (a ∷ rest) (suc i) c h e = ground (arith, all_lem law rest i c)

-- A law that is true of each class in the list is true of every class.
pub every_class : (law : Class → Bool) → all law classes ≡ true → (c : Class) → law c ≡ true
every_class law h c = all_lem law classes (index c) c h (class-index c)
