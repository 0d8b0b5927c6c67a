-- ===== src/Isolate/DataSlots.antt =====
-- The embedder data slots of an isolate (src/isolate.rs): the embedder's slot n is V8's slot n + 1,
-- and V8's slot 0 holds the pointer to the annex.
--
-- V8's slots are a parameter: a state with a read and a write, of which the laws of an array, up to
-- its length, are asked where a theorem needs them. Slots are `u32`, whose sum wraps around in a release build.
use rusty_v.Base.{
  ℕ, if◌then◌else◌, none, Bool-cases, inl, inr, ==→≡, ◌+◌, ◌-◌, ◌%◌, ◌<◌, ◌≡◌, ◌≢◌, ◌⊎◌, arith,
  Option, some, leb, ◌>>◌, assert, ◌==◌, refl,
}

-- `v8__Isolate__GetData` and `v8__Isolate__SetData`; a pointer is a number, and 0 is null.
pub record DataStore : Type 1 where
  pub State : Type 0
  pub get_raw : State → ℕ → ℕ
  pub set_raw : State → ℕ → ℕ → State
  pub count : State → ℕ

-- Of the slots below their number, a write is what a read of its slot gives, and no other slot changes,
-- nor their number, which is a `u32`. Of other slots nothing is asked.
pub record IsArray (d : DataStore) : Type 0 where
  pub same : (s : d.State) (i p : ℕ) → i < d.count s → d.get_raw (d.set_raw s i p) i ≡ p
  pub other :
      (s : d.State) (i j p : ℕ)
      → i < d.count s
      → j < d.count s
      → i ≢ j
      → d.get_raw (d.set_raw s i p) j ≡ d.get_raw s j
  pub kept : (s : d.State) (i p : ℕ) → i < d.count s → d.count (d.set_raw s i p) ≡ d.count s
  pub is_u32 : (s : d.State) → d.count s < 4294967296

abbrev pub annex_slot : ℕ
annex_slot = 0

abbrev pub internal_data_slot_count : ℕ
internal_data_slot_count = 1

abbrev pub u32_values : ℕ
u32_values = 4294967296

module _ (d : DataStore) where
  unfoldable pub get_data_internal : d.State → ℕ → ℕ
  get_data_internal s slot = d.get_raw s slot

  unfoldable pub set_data_internal : d.State → ℕ → ℕ → d.State
  set_data_internal s slot p = d.set_raw s slot p

  -- The value, and the state with a null pointer for it.
  unfoldable pub take_data_internal : d.State → ℕ → ℕ × d.State
  take_data_internal s slot = (get_data_internal s slot, set_data_internal s slot 0)

  unfoldable pub get_data : d.State → ℕ → ℕ
  get_data s slot = get_data_internal s ((internal_data_slot_count + slot) % u32_values)

  unfoldable pub set_data : d.State → ℕ → ℕ → d.State
  set_data s slot p = set_data_internal s ((internal_data_slot_count + slot) % u32_values) p

  -- `none` is the underflow of a `u32`, which panics in a debug build.
  unfoldable pub get_number_of_data_slots : d.State → Option ℕ
  get_number_of_data_slots s = do
    assert (leb internal_data_slot_count (d.count s))
    some (d.count s - internal_data_slot_count)

  -- `create_annex` with the annex at `annex`.
  unfoldable pub create_annex : d.State → ℕ → Option d.State
  create_annex s annex = do
    assert (get_data_internal s annex_slot == 0)
    some (set_data_internal s annex_slot annex)

  -- `get_annex`.
  unfoldable pub get_annex : d.State → Option ℕ
  get_annex s = let annex = get_data_internal s annex_slot in do assert (leb 1 annex); some annex

  module _ (laws : IsArray d) where
    number_of_slots :
        (s : d.State) (n : ℕ) → get_number_of_data_slots s ≡ some n → d.count s ≡ n + 1
    unfolding get_number_of_data_slots
    number_of_slots s n e = ground arith

    -- On a store that is an array up to the number of its slots, which get_number_of_data_slots answers with
    -- one less, and which stays: what the embedder sets in a slot below that answer it gets from it, from
    -- another what it got before, and the annex stays what it was. The slot 2^32 - 1, which is none of
    -- them, wraps around to that of the annex: the write there leaves the others, but replaces the annex
    -- pointer, which is then missing if it is null.
    pub set_data_lem :
        (s : d.State) (n slot other p : ℕ)
        → get_number_of_data_slots s ≡ some n
        → (slot < n) ⊎ (slot ≡ 4294967295)
        → other < n
        → slot ≢ other
        → (get_data (set_data s slot p) slot ≡ p)
          × (get_data (set_data s slot p) other ≡ get_data s other)
          × (get_number_of_data_slots (set_data s slot p) ≡ some n)
          × (get_annex (set_data s slot p)
              ≡ (if slot == 4294967295 then (if p == 0 then none else some p) else get_annex s))
    unfolding get_data set_data get_data_internal set_data_internal get_annex
        get_number_of_data_slots
    set_data_lem s n slot other p number in_range other_in_range differ =
        let count = number_of_slots s n number in
        let fits = laws.is_u32 s in
        let at = (internal_data_slot_count + slot) % u32_values in
        let at_other = (internal_data_slot_count + other) % u32_values in
        let there : at < d.count s = elim in_range [
          | inl below ↦ omega arith
          | inr last ↦ omega arith
        ] in
        let there_other : at_other < d.count s = omega arith in
        let apart : at ≢ at_other = elim in_range [
          | inl below ↦ omega arith
          | inr last ↦ omega arith
        ] in
        (
          laws.same s at p there,
          laws.other s at at_other p there there_other apart,
          rw (laws.kept s at p there) number,
          elim (Bool-cases (slot == 4294967295)) [
            | inl last ↦
                let number = ==→≡ slot 4294967295 last in
                let room : annex_slot < d.count s = omega arith in
                rw (last, number, laws.same s annex_slot p room) (ground arith)
            | inr inner ↦
                let not_annex : at ≢ annex_slot = ground arith in
                let room : annex_slot < d.count s = omega arith in
                rw (inner, laws.other s at annex_slot p there room not_annex) refl
          ],
        )
