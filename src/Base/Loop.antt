-- ===== src/Base/Loop.antt =====
-- `while test { body }` over a body that can fault, on fuel.
use Prim.Native.Nat.{ℕ, zero, suc}
use mathlib.Core.Path.{◌≡◌}
use mathlib.Core.Bool.{Bool, true, false}
use mathlib.Core.Option.{Option, none, some}

module _ {ℓ} {S : Type ℓ} (test : S → Bool) (body : S → Option S) where
  -- `none` is a fault of the body, or fuel that ran out.
  unfoldable pub while : ℕ → S → Option S
  while zero s = none
  while (suc fuel) s = elim (test s) [
    | true ↦ elim (body s) [ none ↦ none | some t ↦ while fuel t ]
    | false ↦ some s
  ]

  pub while-step :
      (fuel : ℕ) (s t : S) → test s ≡ true → body s ≡ some t → while (suc fuel) s ≡ while fuel t
  unfolding while
  while-step fuel s t go e = rw (while, go, e)

  pub while-stop : (fuel : ℕ) (s : S) → test s ≡ false → while (suc fuel) s ≡ some s
  unfolding while
  while-stop fuel s stop = rw (while, stop)
