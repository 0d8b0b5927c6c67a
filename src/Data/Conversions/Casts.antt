-- ===== src/Data/Conversions/Casts.antt =====
-- The casts go down the hierarchy, and find out what an object is.
use rusty_v.Base.{
  ℕ, zero, suc, ◌≡◌, refl, sym, ap, ◌∙◌, Bool, true, false, not, ◌&&◌, ◌||◌, if◌then◌else◌, ==→≡,
  List, [], ◌∷◌, Option, none, some, ◌>>=◌, get_elem?, all, arith, Bool-cases, inl, inr,
}
use rusty_v.Data.Classes.{
  Class, Check, test, cast_test, both, either, integer, int32, uint32, template, function_template,
  object_template,
}
use rusty_v.Data.Table.{classes, impls}
use rusty_v.Data.Conversions.{
  same_class, has_class, is_superclass, superclasses, eval_check, converted, bad_type, find_check,
  try_from,
}
use rusty_v.Data.Conversions.Enumeration.{every_class, class-index}

-- What V8's predicates say of one object: an instance of a class is one of its superclass, and a
-- template is one of a function or of an object.
pub record IsObject (is_instance : Class → Bool) : Type 0 where
  pub up : (c d : Class) → (impls c).deref ≡ some d → is_instance c ≡ true → is_instance d ≡ true
  pub templates :
      is_instance template ≡ is_instance function_template || is_instance object_template

-- The objects that a cast to a class is for: its instances, but of the integers only those of 32 bits,
-- signed or not.
abbrev pub is_target : (Class → Bool) → Class → Bool
is_target is_instance t =
    if same_class t integer then is_instance int32 || is_instance uint32 else is_instance t

same_class-eq : (a b : Class) → same_class a b ≡ true → a ≡ b
same_class-eq a b h =
    let found : ◌≡◌ {A = Option Class} (some a) (some b) =
      sym (class-index a) ∙ (ap (get_elem? classes) (==→≡ _ _ h) ∙ class-index b) in
    cc

-- The two classes that have no predicate of their own, by the two that they are made of.
is_union : Class → Class → Class → Bool
is_union t a b =
    (same_class t integer && (same_class a int32 && same_class b uint32))
    || (same_class t template && (same_class a function_template && same_class b object_template))

-- A check that finds out whether an object is an instance of `t`, and asks no predicate that is not for
-- it.
decides : Class → Check → Bool
unfolding is_union
decides t (test c) = same_class c t && not (same_class t integer)
decides t (both (test p) (cast_test q c)) =
    same_class p q && (same_class c t && (is_superclass p t && not (same_class t integer)))
decides t (both (test p) (either (cast_test q a) (cast_test r b))) =
    same_class p q
    && (same_class p r && (is_superclass p a && (is_superclass p b && is_union t a b)))
decides t (either (test a) (test b)) = is_union t a b
decides t _ = false

abbrev all_decide : Class → List (Class × Check) → Bool
all_decide t [] = true
all_decide t ((s, k) ∷ rest) = decides t k && all_decide t rest

table : all (λ t. all_decide t (impls t).try_from) classes ≡ true
unfolding impls is_superclass decides
table = refl

find-decides :
    (t s : Class) (k : Check) (entries : List (Class × Check))
    → all_decide t entries ≡ true
    → find_check s entries ≡ some k
    → decides t k ≡ true
unfolding find_check
find-decides t s k [] h e = cc
find-decides t s k ((a, c) ∷ rest) h e = ground (arith, find-decides t s k rest)

and-true : (a b : Bool) → (a && b) ≡ true → (a ≡ true) × (b ≡ true)
and-true a b h = (ground arith, ground arith)

-- A predicate asked after the test for its class, of which `y` is a part.
guarded_cast :
    (x y : Bool)
    → (y ≡ true → x ≡ true)
    → (if x then (if x then some y else none) else some false) ≡ some y
guarded_cast true y h = refl
guarded_cast false true h = absurd (ground (arith, h refl))
guarded_cast false false h = refl

guarded_either :
    (x a b : Bool)
    → ((a || b) ≡ true → x ≡ true)
    → (if x
        then (do
          first ← if x then some a else none
          if first then some true else (if x then some b else none))
        else some false)
      ≡ some (a || b)
guarded_either true true b h = refl
guarded_either true false b h = refl
guarded_either false true b h = absurd (ground (arith, h refl))
guarded_either false false true h = absurd (ground (arith, h refl))
guarded_either false false false h = refl

either_test : (a b : Bool) → (if a then some true else some b) ≡ some (a || b)
either_test true b = refl
either_test false b = refl

no_superclass : (p c : Class) → has_class p (superclasses zero c) ≡ false
unfolding has_class superclasses
no_superclass p c = refl

superclasses-suc :
    (fuel : ℕ) (c : Class)
    → superclasses (suc fuel) c
      ≡ elim (impls c).deref as (λ _. List Class) [ none ↦ [] | some d ↦ d ∷ superclasses fuel d ]
unfolding superclasses
superclasses-suc fuel c = refl

module _ (is_instance : Class → Bool) (o : IsObject is_instance) where
  superclasses-hold :
      (fuel : ℕ) (p c : Class) (d : Option Class)
      → (impls c).deref ≡ d
      → has_class p (elim d as (λ _. List Class) [ none ↦ [] | some e ↦ e ∷ superclasses fuel e ])
        ≡ true
      → is_instance c ≡ true
      → is_instance p ≡ true
  unfolding has_class
  superclasses-hold fuel p c none e h i = cc
  superclasses-hold zero p c (some d) e h i = elim (Bool-cases (same_class p d)) [
    | inl same ↦ rw (same_class-eq p d same) (o.up c d e i)
    | inr other ↦ cc (rw other at h, no_superclass p d)
  ]
  superclasses-hold (suc fuel) p c (some d) e h i = elim (Bool-cases (same_class p d)) [
    | inl same ↦ rw (same_class-eq p d same) (o.up c d e i)
    | inr other ↦
        superclasses-hold fuel p d (impls d).deref refl (rw (other, superclasses-suc fuel d) at h)
          (o.up c d e i)
  ]

  is_superclass-holds :
      (p c : Class) → is_superclass p c ≡ true → is_instance c ≡ true → is_instance p ≡ true
  unfolding is_superclass superclasses
  is_superclass-holds p c h i = superclasses-hold 5 p c (impls c).deref refl h i

  is_union-holds :
      (t a b : Class)
      → is_union t a b ≡ true
      → is_target is_instance t ≡ is_instance a || is_instance b
  unfolding is_union
  is_union-holds t a b h =
      elim (Bool-cases (same_class t integer && (same_class a int32 && same_class b uint32))) [
        | inl e ↦
            let (ti, ab) = and-true _ _ e in
            let (ai, bi) = and-true _ _ ab in
            rw (same_class-eq t integer ti, same_class-eq a int32 ai, same_class-eq b uint32 bi)
              refl
        | inr e ↦
            let (ti, ab) = and-true _ _ (rw e at h) in
            let (ai, bi) = and-true _ _ ab in
            rw
              (
                same_class-eq t template ti,
                same_class-eq a function_template ai,
                same_class-eq b object_template bi,
              )
              o.templates
      ]

  not_integer :
      (t : Class) → not (same_class t integer) ≡ true → is_target is_instance t ≡ is_instance t
  not_integer t h = let other : same_class t integer ≡ false = ground arith in rw other refl

  either_holds :
      (p a b : Class)
      → is_superclass p a ≡ true
      → is_superclass p b ≡ true
      → (is_instance a || is_instance b) ≡ true
      → is_instance p ≡ true
  either_holds p a b ua ub h = elim (Bool-cases (is_instance a)) [
    | inl e ↦ is_superclass-holds p a ua e
    | inr e ↦ is_superclass-holds p b ub (rw e at h)
  ]

  decides_lem :
      (t : Class) (k : Check)
      → decides t k ≡ true
      → eval_check is_instance k ≡ some (is_target is_instance t)
  unfolding eval_check decides
  decides_lem t (test c) h =
      let (ct, n) = and-true _ _ h in rw (same_class-eq c t ct, not_integer t n) refl
  decides_lem t (both (test p) (cast_test q c)) h =
      let (pq, h1) = and-true _ _ h in
      let (ct, h2) = and-true _ _ h1 in
      let (up, n) = and-true _ _ h2 in
      rw (← same_class-eq p q pq, same_class-eq c t ct, not_integer t n)
        (guarded_cast (is_instance p) (is_instance t) (is_superclass-holds p t up))
  decides_lem t (both (test p) (either (cast_test q a) (cast_test r b))) h =
      let (pq, h1) = and-true _ _ h in
      let (pr, h2) = and-true _ _ h1 in
      let (ua, h3) = and-true _ _ h2 in
      let (ub, u) = and-true _ _ h3 in
      rw (← same_class-eq p q pq, ← same_class-eq p r pr, is_union-holds t a b u)
        (guarded_either (is_instance p) (is_instance a) (is_instance b) (either_holds p a b ua ub))
  decides_lem t (either (test a) (test b)) h =
      rw (is_union-holds t a b h) (either_test (is_instance a) (is_instance b))
  decides_lem t _ h = cc

-- For every implementation of `TryFrom` in the file, and a handle to any object of its source class:
-- the check asks no predicate of an object that it is not for, and the cast succeeds just when the
-- object is an instance of the target; to Integer, just when it is an Int32 or a Uint32.
pub try_from_lem :
    (target source : Class) (k : Check) (is_instance : Class → Bool)
    → IsObject is_instance
    → find_check source (impls target).try_from ≡ some k
    → try_from target source is_instance k
      ≡ some (if is_target is_instance target then converted target else bad_type target source)
unfolding try_from
try_from_lem target source k is_instance o e =
    let sound =
      find-decides target source k (impls target).try_from
        (every_class (λ t. all_decide t (impls t).try_from) table target) e in
    rw (decides_lem is_instance o target k sound) refl
