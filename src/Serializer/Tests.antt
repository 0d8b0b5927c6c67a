-- ===== src/Serializer/Tests.antt =====
-- A serializer that grows, releases and grows again, as an instance of the theorem.
use rusty_v.Base.{◌≡◌, refl, inl, inr, true, false, List, [], ◌∷◌, ◌++◌, some, none, arith}
use rusty_v.Serializer.{Request, grow, write, release, serializer_life}
use rusty_v.Serializer.Released.{Permitted, serializer_life_lem}

abbrev two_texts : List Request
two_texts =
    grow false 70
    ∷ grow true 2
    ∷ write (1 ∷ 2 ∷ [])
    ∷ grow true 70
    ∷ write (3 ∷ [])
    ∷ release
    ∷ grow true 66
    ∷ write (4 ∷ [])
    ∷ []

two_texts-Permitted : Permitted 0 [] two_texts
two_texts-Permitted = (
  omega arith,
  omega arith,
  omega arith,
  inr refl,
  (
    omega arith,
    omega arith,
    omega arith,
    inl refl,
    (
      omega arith,
      omega arith,
      (
        omega arith,
        omega arith,
        omega arith,
        inl refl,
        (
          omega arith,
          omega arith,
          (omega arith, omega arith, omega arith, inl refl, (omega arith, omega arith, tt)),
        ),
      ),
    ),
  ),
)

serializer_life_lem_example :
    (serializer_life two_texts ≡ some ((1 ∷ 2 ∷ 3 ∷ []) ∷ []))
    × (serializer_life (two_texts ++ (grow false 130 ∷ [])) ≡ none)
serializer_life_lem_example =
    serializer_life_lem two_texts 130 two_texts-Permitted (omega arith) (omega arith)
