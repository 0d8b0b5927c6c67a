-- ===== src/Context/EmbedderData.antt =====
-- The embedder data of a context, beside its slots.
use rusty_v.Base.{
  ℕ, ◌<◌, ◌≡◌, ◌≢◌, refl, sym, ap, ◌∙◌, some, arith, List, true, Bool-cases, inl, inr, ==→≡, ◌==◌,
  if◌then◌else◌,
}
use rusty_v.Context.Promise.{IsAligned}
use rusty_v.Context.{
  FieldStore, ContextAnnex, ContextState, get_annex_mut, set_embedder_data,
  set_aligned_pointer_in_embedder_data, get_aligned_pointer_from_embedder_data, annex_pointer,
  field_of, context_annex_slot,
}
use rusty_v.Context.Steps.{IsEmbedderData, IsBoxAddress, held, get_held, pointer-within}

-- The index whose field is the annex's: -1 alone.
field_of-annex :
    (slot : ℕ) → slot < 4294967296 → slot ≢ 4294967295 → field_of slot ≢ context_annex_slot
field_of-annex slot h differs e = differs (omega arith)

module _ (d : FieldStore) (allocate : List (ℕ × ContextAnnex) → ℕ) (e : IsEmbedderData d)
    (fresh : (xs : List (ℕ × ContextAnnex)) → IsBoxAddress (allocate xs)) where
  -- In a context that has an annex, an aligned pointer that is set at an index whose field V8 has room for,
  -- of which -2 and -1 are two, is what a read of the index gives, and the context still finds its
  -- annex, for every such index but -1. There the pointer takes the place of the annex's, and a value
  -- that is set there is written over it.
  pub set_aligned_pointer_lem :
      (slot p v a id : ℕ) (vs : List (ℕ × ℕ)) (f : d.State) (n : ℕ) (r : List ℕ)
      → slot < 4294967296
      → field_of slot < d.limit
      → IsAligned p
      → d.get_pointer f context_annex_slot ≡ a
      → a ≢ 0
      → context_annex_slot < d.count f
      → (w : ContextState d allocate) × (set_aligned_pointer_in_embedder_data d allocate slot p
            (held d allocate a id vs f n r)
          ≡ some w)
        × (get_aligned_pointer_from_embedder_data d allocate slot w ≡ p)
        × (annex_pointer d allocate w.fields ≡ (if slot == 4294967295 then p else a))
        × (set_embedder_data d allocate 4294967295 v (held d allocate a id vs f n r)
            ≡ some (held d allocate a id vs (d.set_value f context_annex_slot v) n r))
  unfolding set_aligned_pointer_in_embedder_data get_aligned_pointer_from_embedder_data
      set_embedder_data
  set_aligned_pointer_lem slot p v a id vs f n r below has_field aligned points nz room =
      let there : get_annex_mut d allocate true (held d allocate a id vs f n r)
          ≡ some (some a, held d allocate a id vs f n r) =
        get_held d allocate e fresh true a id vs f n r points nz room in
      let found : annex_pointer d allocate (d.set_pointer f (field_of slot) p)
          ≡ d.get_pointer (d.set_pointer f (field_of slot) p) context_annex_slot =
        pointer-within d allocate e fresh (d.set_pointer f (field_of slot) p)
          (e.kept f (field_of slot) context_annex_slot p has_field aligned room) in
      (
        held d allocate a id vs (d.set_pointer f (field_of slot) p) n r,
        rw there refl,
        e.same f (field_of slot) p has_field aligned,
        elim (Bool-cases (slot == 4294967295)) [
          | inl is_last ↦
              let last = ==→≡ slot 4294967295 is_last in
              let own : field_of slot ≡ context_annex_slot = rw last refl in
              found
              ∙ ap (λ i. d.get_pointer (d.set_pointer f (field_of slot) p) i) (sym own)
              ∙ e.same f (field_of slot) p has_field aligned
              ∙ rw is_last refl
          | inr not_last ↦
              let differs : slot ≢ 4294967295 = ground arith in
              found
              ∙ e.other f (field_of slot) context_annex_slot p has_field aligned
                  (field_of-annex slot below differs)
              ∙ points
              ∙ rw not_last refl
        ],
        rw there refl,
      )
