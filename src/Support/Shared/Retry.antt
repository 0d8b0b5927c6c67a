-- ===== src/Support/Shared/Retry.antt =====
-- `assert_shared_ptr_use_count_eq` (src/support.rs): the count of references is read until it is the
-- expected one, for a second.
--
-- Other threads and the clock are parameters: `reading k` is the count that the read number `k` gives,
-- the read before the loop being number 0, and `elapsed k` is the time that has passed when round `k`
-- asks for it, in nanoseconds. The largest `long` differs between platforms and is a parameter.
use rusty_v.Base.{
  ℕ, zero, suc, ◌+◌, ◌≤◌, ◌<◌, ◌≡◌, ◌↔◌, ◌≢◌, ◌⊎◌, refl, Bool, true, false, if◌then◌else◌, ◌==◌,
  ltb, leb, ==→≡, Option, none, some, arith, inl, inr, subst,
}

abbrev pub retry_timeout : ℕ
retry_timeout = 1_000_000_000

==-false→≢ : {a b : ℕ} → (a == b) ≡ false → a ≢ b
==-false→≢ e same = ground arith

eq_or_above : (k j : ℕ) → k ≤ j → (j ≡ k) ⊎ (k < j)
eq_or_above k j h = ground arith

module _ (long_max : ℕ) (reading elapsed : ℕ → ℕ) where
  -- The loop, from round `k` on; `none` is fuel that ran out.
  unfoldable pub retry : ℕ → ℕ → ℕ → Option Bool
  retry expected zero k = none
  retry expected (suc fuel) k =
      let rest = retry expected fuel (k + 1) in
      if reading k == expected
      then some true
      else (if ltb retry_timeout (elapsed k) then some false else rest)

  -- What `assert!` is given: `long::try_from` fails, the fast path, or the loop.
  unfoldable pub use_count_eq : ℕ → ℕ → Option Bool
  use_count_eq fuel expected =
      if leb expected long_max
      then (if reading 0 == expected then some true else retry expected fuel 1)
      else some false

  -- A read that gives the expected count, and no round before it that ran out of time.
  abbrev pub Sees : ℕ → ℕ → Type 0
  Sees expected first =
      (k : ℕ) × (first ≤ k)
      × (reading k ≡ expected)
      × ((j : ℕ) → 1 ≤ j → first ≤ j → j < k → elapsed j ≤ retry_timeout)

  Sees-here : (expected k : ℕ) → reading k ≡ expected → Sees expected k
  Sees-here expected k e = (k, omega arith, e, λ j one from below. absurd (omega arith))

  Sees-never :
      (expected k : ℕ)
      → reading k ≢ expected
      → 1 ≤ k
      → retry_timeout < elapsed k
      → Sees expected k
      → false ≡ true
  Sees-never expected k differs one late (j, from, found, within) = elim (eq_or_above k j from) [
    | inl same ↦ absurd (differs (rw (← same) found))
    | inr above ↦ let early = within k one (omega arith) above in absurd (omega arith)
  ]

  Sees-later :
      (expected k : ℕ)
      → reading k ≢ expected
      → (1 ≤ k → elapsed k ≤ retry_timeout)
      → Sees expected k ↔ Sees expected (k + 1)
  Sees-later expected k differs early = (
    λ (j, from, found, within). elim (eq_or_above k j from) [
      | inl same ↦ absurd (differs (rw (← same) found))
      | inr above ↦ (j, omega arith, found, λ i one after below. within i one (omega arith) below)
    ],
    λ (j, from, found, within). (
      j,
      omega arith,
      found,
      λ i one after below. elim (eq_or_above k i after) [
        | inl same ↦ rw same (early (omega arith))
        | inr above ↦ within i one (omega arith) below
      ],
    ),
  )

  retry_lem :
      (expected fuel k last : ℕ)
      → 1 ≤ k
      → k ≤ last
      → last < k + fuel
      → retry_timeout < elapsed last
      → (ok : Bool) × (retry expected fuel k ≡ some ok) × ((ok ≡ true) ↔ Sees expected k)
  unfolding retry
  retry_lem expected zero k last p a b late = absurd (omega arith)
  retry_lem expected (suc fuel) k last p a b late =
      round (reading k == expected) (ltb retry_timeout (elapsed k)) refl refl
        (λ below. retry_lem expected fuel (k + 1) last (omega arith) below (omega arith) late)
    where
      next_round : ltb retry_timeout (elapsed k) ≡ false → k + 1 ≤ last
      next_round f = elim (eq_or_above k last a) [
        | inl same ↦
            let now = subst (λ x. retry_timeout < elapsed x) same late in absurd (ground arith)
        | inr above ↦ omega arith
      ]

      round :
          (seen timed_out : Bool)
          → (reading k == expected) ≡ seen
          → ltb retry_timeout (elapsed k) ≡ timed_out
          → (k + 1 ≤ last
              → (ok : Bool) × (retry expected fuel (k + 1) ≡ some ok)
                × ((ok ≡ true) ↔ Sees expected (k + 1)))
          → (ok : Bool) × ((if seen
                then some true
                else (if timed_out then some false else retry expected fuel (k + 1)))
              ≡ some ok)
            × ((ok ≡ true) ↔ Sees expected k)
      round true timed_out e f rest =
          (true, refl, ((λ _. Sees-here expected k (==→≡ _ _ e)), (λ _. refl)))
      round false true e f rest =
          (false, refl, ((λ h. cc), Sees-never expected k (==-false→≢ e) p (ground arith)))
      round false false e f rest =
          let (ok, r, same) = rest (next_round f) in
          let later = Sees-later expected k (==-false→≢ e) (λ _. ground arith) in
          (ok, r, ((λ h. later.1 (same.0 h)), (λ h. same.1 (later.0 h))))

  -- If the clock passes the timeout in some round, the loop ends by that round, and the assertion
  -- then passes just when the expected count is a `long` and some read gave it, with no earlier
  -- round that found the time used up.
  pub use_count_eq_lem :
      (expected fuel last : ℕ)
      → 1 ≤ last
      → last ≤ fuel
      → retry_timeout < elapsed last
      → (ok : Bool) × (use_count_eq fuel expected ≡ some ok)
        × ((ok ≡ true) ↔ (expected ≤ long_max) × Sees expected 0)
  unfolding use_count_eq
  use_count_eq_lem expected fuel last a b late =
      let (ok, r, same) = retry_lem expected fuel 1 last (omega arith) a (omega arith) late in
      first (leb expected long_max) (reading 0 == expected) refl refl ok r same
    where
      first :
          (fits seen : Bool)
          → leb expected long_max ≡ fits
          → (reading 0 == expected) ≡ seen
          → (ok : Bool) → retry expected fuel 1 ≡ some ok
          → ((ok ≡ true) ↔ Sees expected 1)
          → (ok : Bool) × ((if fits
                then (if seen then some true else retry expected fuel 1)
                else some false)
              ≡ some ok)
            × ((ok ≡ true) ↔ (expected ≤ long_max) × Sees expected 0)
      first false seen e f ok r same = (false, refl, ((λ h. cc), (λ (fits, _). ground arith)))
      first true true e f ok r same =
          (true, refl, ((λ _. (ground arith, Sees-here expected 0 (==→≡ _ _ f))), (λ _. refl)))
      first true false e f ok r same =
          let later = Sees-later expected 0 (==-false→≢ f) (λ h. absurd (omega arith)) in
          (ok, r, ((λ h. (ground arith, later.1 (same.0 h))), (λ (_, h). same.1 (later.0 h))))
