-- ===== src/Build/Arguments/Tests.antt =====
-- The arguments for gn of builds for android on linux, as instances of the theorem.
use rusty_v.Base.{
  ◌≡◌, refl, false, if◌then◌else◌, List, [], ◌∷◌, none, some, Text, codes, text_eq, starts_with,
}
use rusty_v.Build.Environment.{Env, is_debug}
use rusty_v.Build.Arguments.{
  Argument, Machine, is_android, android_arch, cpu_args, is_musl, gn_args,
}
use rusty_v.Build.Arguments.Values.{values, agree}
use rusty_v.Build.Arguments.Cpu.{names_twice, gn_args_lem}

abbrev machine : Machine
machine = record {
  is_apple_silicon = false;
  system_clang = none;
  chromium_clang = codes "clang";
  debug = λ path. path;
  sccache = none;
  ccache = some (codes "ccache");
}

-- What cargo sets, and no other variable.
abbrev built_for : Text → Text → Env
built_for arch target key =
    if text_eq key (codes "CARGO_CFG_TARGET_OS")
    then some (codes "android")
    else (if text_eq key (codes "CARGO_CFG_TARGET_ARCH")
        then some arch
        else (if text_eq key (codes "TARGET")
            then some target
            else (if text_eq key (codes "HOST")
                then some (codes "x86_64-unknown-linux-gnu")
                else (if text_eq key (codes "PROFILE") then some (codes "release") else none))))

abbrev arm_env : Env
arm_env = built_for (codes "arm") (codes "armv7-linux-androideabi")

gn_args_lem_example :
    (args : List Argument) × (gn_args arm_env machine false ≡ some args)
    × (agree (values (codes "target_cpu") args) ≡ false)
unfolding text_eq is_debug starts_with is_musl is_android names_twice
gn_args_lem_example =
    gn_args_lem arm_env machine false false (codes "android") (codes "arm")
      (codes "armv7-linux-androideabi") (codes "x86_64-unknown-linux-gnu") refl refl refl refl refl
      (λ e. cc) (λ e. cc)

arm_values :
    values (codes "target_cpu") (cpu_args (codes "android") (codes "arm")) ≡ codes "\"arm\"" ∷ []
unfolding cpu_args text_eq
arm_values = refl

arm_android : android_arch (codes "arm") ≡ codes "unknown"
unfolding android_arch text_eq
arm_android = refl
