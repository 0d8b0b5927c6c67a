-- ===== src/Context/Tests.antt =====
-- A context's life, and instances of the theorems on it.
use rusty_v.Base.{
  ℕ, ◌+◌, ◌≡◌, refl, All, if◌then◌else◌, ◌==◌, ==-self, ltb, List, [], ◌∷◌, some, arith,
}
use rusty_v.Context.{
  FieldStore, ContextAnnex, ContextState, annex_pointer, context_annex_slot,
  set_aligned_pointer_in_embedder_data, get_aligned_pointer_from_embedder_data, set_embedder_data,
}
use rusty_v.Context.Promise.{
  ContextOp, get_context_slot, set_context_slot, clear_context_slots, set_data_value, SparesAnnex,
  context_life, slot_promises,
}
use rusty_v.Context.Steps.{IsEmbedderData, IsBoxAddress, bare, held}
use rusty_v.Context.Life.{context_life_lem}
use rusty_v.Context.EmbedderData.{set_aligned_pointer_lem}
use rusty_v.Isolate.Slots.{delete}

record Fields : Type 0 where
  size : ℕ
  pointers : ℕ → ℕ
  values : ℕ → ℕ

abbrev room_for : ℕ → ℕ → ℕ
room_for i size = if ltb i size then size else i + 1

abbrev array : FieldStore
array = record {
  State = Fields;
  count = λ s. s.size;
  limit = 1000;
  get_pointer = λ s i. s.pointers i;
  set_pointer = λ s i p. record {
    size = room_for i s.size;
    pointers = λ j. if i == j then p else s.pointers j;
    values = s.values;
  };
  get_value = λ s i. s.values i;
  set_value = λ s i v. record {
    size = room_for i s.size;
    pointers = s.pointers;
    values = λ j. if i == j then v else s.values j;
  };
}

array-IsEmbedderData : IsEmbedderData array
array-IsEmbedderData = record {
  has_room = omega arith;
  is_int = omega arith;
  same = λ s i p room even. rw (==-self i) refl;
  grown = λ s i p room even. ground arith;
  other = λ s i j p room even ne. ground arith;
  other_value = λ s i j v room ne. refl;
  kept = λ s i j p room even less. ground arith;
  kept_value = λ s i j v room less. ground arith;
}

abbrev at_4096 : List (ℕ × ContextAnnex) → ℕ
at_4096 xs = 4096

never_null : (xs : List (ℕ × ContextAnnex)) → IsBoxAddress (at_4096 xs)
never_null xs = ((λ e. absurd (omega arith)), refl)

abbrev no_fields : Fields
no_fields = record { size = 0; pointers = λ i. 0; values = λ i. 0 }

-- Two slots, one replaced; the slots are cleared, and one more is set before the end.
abbrev uses : List ContextOp
uses =
    set_context_slot 1 10
    ∷ set_data_value 0 7
    ∷ set_context_slot 2 20
    ∷ set_context_slot 1 11
    ∷ clear_context_slots
    ∷ get_context_slot 1
    ∷ set_context_slot 3 30
    ∷ get_context_slot 3
    ∷ []

uses-spare : All (SparesAnnex array) uses
uses-spare =
    (tt, (((λ e. absurd (omega arith)), omega arith), (tt, (tt, (tt, (tt, (tt, (tt, tt))))))))

context_life_lem_example :
    (last : Fields) × (context_life array at_4096 uses
        (0 ∷ 1 ∷ [])
        (bare array at_4096 no_fields 0 [])
      ≡ some (
        (slot_promises uses (record { values = []; dropped = [] })).0,
        bare array at_4096 last 0 (11 ∷ 20 ∷ 30 ∷ []),
      ))
unfolding slot_promises annex_pointer delete
context_life_lem_example =
    context_life_lem array at_4096 array-IsEmbedderData never_null uses uses-spare (0 ∷ 1 ∷ [])
      no_fields 0 refl

abbrev two_fields : Fields
two_fields = record { size = 2; pointers = λ i. if 1 == i then 4096 else 0; values = λ i. 0 }

set_aligned_pointer_lem_example :
    (w : ContextState array at_4096) × (set_aligned_pointer_in_embedder_data array at_4096
        4294967295 64
        (held array at_4096 4096 0 [] two_fields 1 [])
      ≡ some w)
    × (get_aligned_pointer_from_embedder_data array at_4096 4294967295 w ≡ 64)
    × (annex_pointer array at_4096 w.fields ≡ 64)
    × (set_embedder_data array at_4096 4294967295 5 (held array at_4096 4096 0 [] two_fields 1 [])
        ≡ some
            (held array at_4096 4096 0 [] (array.set_value two_fields context_annex_slot 5) 1 []))
set_aligned_pointer_lem_example =
    set_aligned_pointer_lem array at_4096 array-IsEmbedderData never_null 4294967295 64 5 4096 0 []
      two_fields 1 [] (omega arith) (omega arith) refl refl (never_null []).0 (omega arith)
