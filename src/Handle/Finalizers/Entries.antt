-- ===== src/Handle/Finalizers/Entries.antt =====
-- What the operations do to the entries.
use rusty_v.Base.{ℕ, ◌<◌, ◌≡◌, refl, ◌≢◌, List, [], ◌∷◌, none, some, arith}
use rusty_v.Handle.Finalizers.{FinalizerCallback, FinalizerMap, lookup, erase, insert, add}

pub lookup-erase : (k : ℕ) (es : List (ℕ × FinalizerCallback)) → lookup k (erase k es) ≡ none
unfolding lookup erase
lookup-erase k [] = refl
lookup-erase k ((i, c) ∷ es) = let rest = lookup-erase k es in ground arith

pub lookup-erase_other :
    (k j : ℕ) (es : List (ℕ × FinalizerCallback)) → k ≢ j → lookup k (erase j es) ≡ lookup k es
unfolding lookup erase
lookup-erase_other k j [] ne = refl
lookup-erase_other k j ((i, c) ∷ es) ne = let rest = lookup-erase_other k j es ne in ground arith

pub lookup-add :
    (c : FinalizerCallback) (m : FinalizerMap) → lookup m.next_id (add c m).1.map ≡ some c
unfolding lookup add insert
lookup-add c m = ground arith

pub lookup-add_other :
    (k : ℕ) (c : FinalizerCallback) (m : FinalizerMap)
    → k < m.next_id
    → lookup k (add c m).1.map ≡ lookup k m.map
unfolding lookup add insert
lookup-add_other k c m less =
    let rest : k ≢ m.next_id → lookup k (erase m.next_id m.map) ≡ lookup k m.map =
      lookup-erase_other k m.next_id m.map in
    ground arith
