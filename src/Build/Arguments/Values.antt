-- ===== src/Build/Arguments/Values.antt =====
-- The groups of arguments for gn in build.rs that give no value to target_cpu.
use rusty_v.Base.{
  ◌≡◌, refl, ◌∙◌, inl, inr, Bool, true, false, ◌&&◌, ◌||◌, Bool-cases, if◌then◌else◌, List, [], ◌∷◌,
  ◌++◌, Option, none, some, Text, codes, text_eq, arith,
}
use rusty_v.Build.Environment.{Env}
use rusty_v.Build.Arguments.{
  Argument, assign, verbatim, Machine, profile_args, extra_args, feature_args, clang_path_args,
  clang_args, cc_wrapper, cc_wrapper_args, caller_args, musl_tools, is_musl, musl_args,
  sysroot_args, ios_args, quoted, glibc,
}

-- The values that are given to a name, one after the other.
abbrev pub values : Text → List Argument → List Text
values n [] = []
values n (verbatim t ∷ xs) = values n xs
values n (assign m v ∷ xs) = if text_eq n m then v ∷ values n xs else values n xs

abbrev pub all_are : Text → List Text → Bool
all_are v [] = true
all_are v (w ∷ ws) = text_eq v w && all_are v ws

-- Whether a name has one value at most.
abbrev pub agree : List Text → Bool
agree [] = true
agree (v ∷ vs) = all_are v vs

abbrev pub cpu : Text
cpu = codes "target_cpu"

pub values-++ :
    (n : Text) (xs ys : List Argument) → values n (xs ++ ys) ≡ values n xs ++ values n ys
values-++ n [] ys = refl
values-++ n (verbatim t ∷ xs) ys = values-++ n xs ys
values-++ n (assign m v ∷ xs) ys = elim (Bool-cases (text_eq n m)) [
  | inl e ↦ rw (e, values-++ n xs ys)
  | inr e ↦ rw (e, values-++ n xs ys)
]

-- Arguments that leave a name alone, before others.
pub values_none :
    (n : Text) (xs ys : List Argument) → values n xs ≡ [] → values n (xs ++ ys) ≡ values n ys
values_none n xs ys e = rw (values-++ n xs ys, e)

pub profile_none : (env : Env) (a d : Bool) (os : Text) → values cpu (profile_args env a d os) ≡ []
unfolding profile_args text_eq
profile_none env true d os = refl
profile_none env false d os = refl

extra_none : (env : Env) → values cpu (extra_args env) ≡ []
unfolding extra_args text_eq
extra_none env = ground arith

pub feature_none : (env : Env) (machine : Machine) → values cpu (feature_args env machine) ≡ []
unfolding feature_args text_eq
feature_none env machine = values_none cpu (extra_args env) _ (extra_none env) ∙ ground arith

clang_path_none :
    (machine : Machine) (os arch : Text) → values cpu (clang_path_args machine os arch) ≡ []
unfolding clang_path_args text_eq
clang_path_none machine os arch = ground arith

pub clang_none :
    (env : Env) (machine : Machine) (os arch : Text)
    → values cpu (clang_args env machine os arch) ≡ []
unfolding clang_args text_eq
clang_none env machine os arch = ground (arith, clang_path_none machine os arch)

cc_wrapper_none : (machine : Machine) (o : Option Text) → values cpu (cc_wrapper machine o) ≡ []
unfolding cc_wrapper text_eq
cc_wrapper_none machine none = refl
cc_wrapper_none machine (some path) = refl

pub caller_none : (given os : Text) → values cpu (caller_args given os) ≡ []
unfolding caller_args text_eq
caller_none given os = ground arith

pub ios_none : (given os target : Text) → values cpu (ios_args given os target) ≡ []
unfolding ios_args text_eq
ios_none given os target = ground arith

sysroot_none : (o : Option Text) → values cpu (sysroot_args o) ≡ []
unfolding text_eq
sysroot_none none = refl
sysroot_none (some s) = refl

-- The processors for which a build against musl has tools.
abbrev pub has_musl_tools : Text → Bool
has_musl_tools arch = text_eq arch (codes "x86_64") || text_eq arch (codes "aarch64")

musl_tools_none :
    (arch : Text)
    → has_musl_tools arch ≡ true
    → (xs : List Argument) × (musl_tools arch ≡ some xs) × (values cpu xs ≡ [])
unfolding musl_tools text_eq
musl_tools_none arch h = elim (Bool-cases (text_eq arch (codes "x86_64"))) [
  | inl e ↦ (
    assign (codes "host_toolchain") (quoted glibc)
        ∷ assign (codes "v8_snapshot_toolchain") (quoted glibc)
        ∷ [],
    rw e,
    refl,
  )
  | inr e ↦ elim (Bool-cases (text_eq arch (codes "aarch64"))) [
    | inl e' ↦ ([], rw (e, e'), refl)
    | inr e' ↦ cc
  ]
]

pub musl_none :
    (env : Env) (os arch : Text)
    → (is_musl env os ≡ true → has_musl_tools arch ≡ true)
    → (xs : List Argument) × (musl_args env os arch ≡ some xs) × (values cpu xs ≡ [])
unfolding musl_args text_eq
musl_none env os arch h = elim (Bool-cases (is_musl env os)) [
  | inl e ↦
      let (tools, t, v) = musl_tools_none arch (h e) in
      let none_left : values cpu (tools ++ sysroot_args (env (codes "RUSTY_V8_MUSL_SYSROOT")))
          ≡ [] =
        values_none cpu tools _ v ∙ sysroot_none _ in
      (
        assign (codes "use_musl") (codes "true")
            ∷ assign (codes "use_glib") (codes "false")
            ∷ assign (codes "rust_prebuilt_stdlib") (codes "false")
            ∷ assign (codes "treat_warnings_as_errors") (codes "false")
            ∷ (tools ++ sysroot_args (env (codes "RUSTY_V8_MUSL_SYSROOT"))),
        rw (e, t),
        none_left,
      )
  | inr e ↦ ([], rw e, refl)
]

pub wrapper_none : (env : Env) (machine : Machine) → values cpu (cc_wrapper_args env machine) ≡ []
unfolding cc_wrapper_args
wrapper_none env machine = cc_wrapper_none machine _
