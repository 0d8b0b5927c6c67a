-- ===== src/Handle/Host/Matching.antt =====
-- When hosts match, when they panic, and how far the check goes.
use rusty_v.Base.{ℕ, ◌≡◌, refl, ◌≢◌, ◌↔◌, ◌⊎◌, true, false, Option, none, some, arith}
use rusty_v.Handle.Host.{
  HandleHost, scope, isolate, disposed_isolate, match_host, assert_match_host, assert_match_isolate,
  open_handle, from_ptr,
}

match_host_comm : (a b : HandleHost) (o : Option ℕ) → match_host a b o ≡ match_host b a o
unfolding match_host
match_host_comm a b o = ground arith

match_host_panics_iff :
    (a b : HandleHost) (o : Option ℕ)
    → (match_host a b o ≡ none) ↔ (a ≡ disposed_isolate) ⊎ (b ≡ disposed_isolate)
unfolding match_host
match_host_panics_iff a b o = (λ e. ground arith, λ e. ground arith)

-- The isolate that a handle is taken to be hosted by, in a scope of `ile`.
abbrev pub resolve : ℕ → HandleHost → Option ℕ
resolve ile scope = some ile
resolve ile (isolate i) = some i
resolve ile disposed_isolate = none

match_host_in_scope :
    (a b : HandleHost) (ile : ℕ)
    → (match_host a b (some ile) ≡ some true)
      ↔ (i : ℕ) × (resolve ile a ≡ some i) × (resolve ile b ≡ some i)
unfolding match_host
match_host_in_scope scope scope ile = (λ _. (ile, refl, refl), λ _. refl)
match_host_in_scope scope (isolate i) ile =
    (λ e. (ile, refl, ground arith), λ (k, e, d). ground arith)
match_host_in_scope (isolate i) scope ile =
    (λ e. (i, refl, ground arith), λ (k, e, d). ground arith)
match_host_in_scope (isolate i) (isolate j) ile =
    (λ e. (i, refl, ground arith), λ (k, e, d). ground arith)
match_host_in_scope disposed_isolate b ile = (λ e. ground arith, λ (k, e, d). absurd (ground arith))
match_host_in_scope scope disposed_isolate ile =
    (λ e. ground arith, λ (k, e, d). absurd (ground arith))
match_host_in_scope (isolate i) disposed_isolate ile =
    (λ e. ground arith, λ (k, e, d). absurd (ground arith))

-- Opening a handle that names its host by pointer gives its data just in the isolate that the pointer
-- names: in any other isolate, and once the pointer is null, it panics.
pub open_handle_iff :
    (ile data_ptr : ℕ) (ptr : Option ℕ)
    → (open_handle (from_ptr ptr) data_ptr ile ≡ some data_ptr) ↔ (ptr ≡ some ile)
unfolding open_handle assert_match_isolate assert_match_host match_host from_ptr
open_handle_iff ile data_ptr ptr = (λ e. ground arith, λ e. ground arith)

match_host_through_local :
    (i j : ℕ)
    → i ≢ j
    → (match_host (isolate i) scope none ≡ some true)
      × (match_host scope (isolate j) none ≡ some true)
      × (match_host (isolate i) (isolate j) none ≡ some false)
unfolding match_host
match_host_through_local i j ne = ground arith

-- For any two hosts: `match_host` is symmetric, and panics just when one of them is a disposed isolate;
-- in a known scope they match just when they stand for one isolate, where a local handle stands for the
-- isolate of the scope and a disposed host for none; and without a scope two different isolates do not
-- match, though a local handle matches both.
pub match_host_lem :
    (a b : HandleHost) (o : Option ℕ) (ile i j : ℕ)
    → i ≢ j
    → (match_host a b o ≡ match_host b a o)
      × ((match_host a b o ≡ none) ↔ (a ≡ disposed_isolate) ⊎ (b ≡ disposed_isolate))
      × ((match_host a b (some ile) ≡ some true)
          ↔ (k : ℕ) × (resolve ile a ≡ some k) × (resolve ile b ≡ some k))
      × (match_host (isolate i) scope none ≡ some true)
      × (match_host scope (isolate j) none ≡ some true)
      × (match_host (isolate i) (isolate j) none ≡ some false)
match_host_lem a b o ile i j ne =
    let local = match_host_through_local i j ne in
    (
      match_host_comm a b o,
      match_host_panics_iff a b o,
      match_host_in_scope a b ile,
      local.0,
      local.1,
      local.2,
    )
