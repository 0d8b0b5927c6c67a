-- ===== src/Build/Arguments/Cpu.antt =====
-- The values that the arguments for gn in build.rs give to target_cpu.
use rusty_v.Base.{
  ◌≡◌, refl, sym, subst, ap, ◌∙◌, inl, inr, Bool, true, false, not, ◌&&◌, ◌||◌, Bool-cases, List,
  [], ◌++◌, some, Text, codes, text_eq, text_eq→≡, starts_with, arith,
}
use rusty_v.Build.Environment.{Env, is_debug, unwrap_or}
use rusty_v.Build.Arguments.{
  Argument, Machine, profile_args, feature_args, clang_args, cc_wrapper_args, caller_args, cpu_args,
  is_musl, android_arch, is_android, android_args, ios_args, i686_args, all_args, gn_args,
}
use rusty_v.Build.Arguments.Values.{
  values, agree, cpu, values-++, values_none, has_musl_tools, profile_none, feature_none,
  clang_none, wrapper_none, caller_none, ios_none, musl_none,
}

-- A build for android on a machine of another triple, for a processor that android_arch has no name for,
-- though it has been named before or is after.
unfoldable pub names_twice : Text → Text → Text → Text → Bool
names_twice os arch target host =
    is_android os target host
    && (text_eq arch (codes "arm")
        || (text_eq arch (codes "riscv64") || starts_with target (codes "i686-")))

abbrev cpu_parts : Text → Text → Text → Text → List Argument
cpu_parts os arch target host =
    cpu_args os arch ++ (android_args os arch target host ++ i686_args target)

-- The triple that starts with i686 is that of an x86 processor.
abbrev pub AgreesWith : Text → Text → Type 0
AgreesWith target arch = starts_with target (codes "i686-") ≡ true → arch ≡ codes "x86"

x86_agree :
    (os arch target host : Text)
    → starts_with target (codes "i686-") ≡ true
    → arch ≡ codes "x86"
    → agree (values cpu (cpu_parts os arch target host)) ≡ not (names_twice os arch target host)
unfolding cpu_args android_args i686_args android_arch names_twice text_eq
x86_agree os arch target host e h =
    rw (h, e) (elim (Bool-cases (is_android os target host)) [ inl a ↦ rw a | inr a ↦ rw a ])

-- A processor that cpu_args has a name for, or any other.
on_arch :
    (P : Text → Type 0)
    → P (codes "aarch64")
    → P (codes "arm")
    → P (codes "riscv64")
    → ((arch : Text)
        → text_eq arch (codes "aarch64") ≡ false
        → text_eq arch (codes "arm") ≡ false
        → text_eq arch (codes "riscv64") ≡ false
        → P arch)
    → (arch : Text) → P arch
on_arch P a b c other arch = elim (Bool-cases (text_eq arch (codes "aarch64"))) [
  | inl e ↦ subst P (sym (text_eq→≡ arch (codes "aarch64") e)) a
  | inr e ↦ elim (Bool-cases (text_eq arch (codes "arm"))) [
    | inl e' ↦ subst P (sym (text_eq→≡ arch (codes "arm") e')) b
    | inr e' ↦ elim (Bool-cases (text_eq arch (codes "riscv64"))) [
      | inl e'' ↦ subst P (sym (text_eq→≡ arch (codes "riscv64") e'')) c
      | inr e'' ↦ other arch e e' e''
    ]
  ]
]

other_agree :
    (os arch target host : Text)
    → starts_with target (codes "i686-") ≡ false
    → agree (values cpu (cpu_parts os arch target host)) ≡ not (names_twice os arch target host)
unfolding cpu_args android_args i686_args android_arch names_twice text_eq
other_agree os arch target host e =
    on_arch
      (λ x. agree (values cpu (cpu_parts os x target host)) ≡ not (names_twice os x target host))
      (ground arith) (ground arith) (ground arith)
      (λ x p q r. elim (Bool-cases (is_android os target host)) [
        | inl a ↦ rw (a, e, p, q, r) refl
        | inr a ↦ rw (a, e, p, q, r) refl
      ])
      arch

-- Of the groups of arguments three may give the name.
values-all_args :
    (env : Env) (machine : Machine) (asan debug : Bool) (os arch target host : Text)
    (musl : List Argument)
    → values cpu musl ≡ []
    → values cpu (all_args env machine asan debug os arch target host musl)
      ≡ values cpu (cpu_parts os arch target host)
values-all_args env machine asan debug os arch target host musl h =
    let given = unwrap_or [] (env (codes "GN_ARGS")) in
    let c = cpu_args os arch in
    let a = android_args os arch target host in
    let i = ios_args given os target in
    let x = i686_args target in
    let ends : values cpu (c ++ (musl ++ (a ++ (i ++ x)))) ≡ values cpu (c ++ (a ++ x)) = rw (
      values-++ cpu c (musl ++ (a ++ (i ++ x))),
      values_none cpu musl (a ++ (i ++ x)) h,
      values-++ cpu a (i ++ x),
      values_none cpu i x (ios_none given os target),
      values-++ cpu c (a ++ x),
      values-++ cpu a x,
    ) in
    values_none cpu (profile_args env asan debug os) _ (profile_none env asan debug os)
    ∙ values_none cpu (feature_args env machine) _ (feature_none env machine)
    ∙ values_none cpu (clang_args env machine os arch) _ (clang_none env machine os arch)
    ∙ values_none cpu (cc_wrapper_args env machine) _ (wrapper_none env machine)
    ∙ values_none cpu (caller_args given os) _ (caller_none given os)
    ∙ ends

agree_lem :
    (os arch target host : Text)
    → AgreesWith target arch
    → agree (values cpu (cpu_parts os arch target host)) ≡ not (names_twice os arch target host)
agree_lem os arch target host h = elim (Bool-cases (starts_with target (codes "i686-"))) [
  | inl e ↦ x86_agree os arch target host e (h e)
  | inr e ↦ other_agree os arch target host e
]

-- Where the variables are set that cargo sets, PROFILE to one of its two values, and a build for linux
-- against musl is for x86_64 or aarch64, build_v8 makes its arguments for gn without a panic, whatever
-- other variables, compilers and wrappers there are. Those that it adds to GN_ARGS give target_cpu one
-- value at most, but for a build for android on a machine of another triple for arm, riscv64 or a
-- triple of i686: there they give two that differ.
pub gn_args_lem :
    (env : Env) (machine : Machine) (asan debug : Bool) (os arch target host : Text)
    → env (codes "CARGO_CFG_TARGET_OS") ≡ some os
    → env (codes "CARGO_CFG_TARGET_ARCH") ≡ some arch
    → is_debug env ≡ some debug
    → env (codes "TARGET") ≡ some target
    → env (codes "HOST") ≡ some host
    → AgreesWith target arch
    → (is_musl env os ≡ true → has_musl_tools arch ≡ true)
    → (args : List Argument) × (gn_args env machine asan ≡ some args)
      × (agree (values (codes "target_cpu") args) ≡ not (names_twice os arch target host))
unfolding gn_args
gn_args_lem env machine asan debug os arch target host eo ea ed et eh agrees tools =
    let (musl, em, none_there) = musl_none env os arch tools in
    (
      all_args env machine asan debug os arch target host musl,
      rw (eo, ea, ed, em, et, eh) refl,
      ap agree (values-all_args env machine asan debug os arch target host musl none_there)
          ∙ agree_lem os arch target host agrees,
    )
