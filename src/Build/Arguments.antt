-- ===== src/Build/Arguments.antt =====
-- `build_v8` of build.rs up to its call of gn: the arguments that it makes of the environment.
--
-- A panic is `none`. What the script finds on the machine is a record; what it downloads meanwhile
-- does not change the arguments. Variables are Unicode.
pub mod Values
pub mod Cpu
mod Tests
use rusty_v.Base.{
  ℕ, Bool, true, false, not, ◌&&◌, ◌||◌, if◌then◌else◌, leb, ◌==◌, List, [], ◌∷◌, ◌++◌, Option,
  none, some, ◌>>=◌, Text, codes, text_eq, starts_with, contains, ends_with,
}
use rusty_v.Build.Environment.{Env, is_set, unwrap_or, is_debug}

-- `name=value`, or what the caller gives.
pub data Argument : Type 0 where
  assign : Text → Text → Argument
  verbatim : Text → Argument

-- `cfg!`, the compilers that are found, a path as `{:?}` prints it, and the wrappers on the path.
pub record Machine : Type 0 where
  pub is_apple_silicon : Bool
  pub system_clang : Option Text
  pub chromium_clang : Text
  pub debug : Text → Text
  pub sccache : Option Text
  pub ccache : Option Text

abbrev pub when : Bool → List Argument → List Argument
when b xs = if b then xs else []

abbrev pub bool_text : Bool → Text
bool_text true = codes "true"
bool_text false = codes "false"

abbrev pub quoted : Text → Text
quoted v = codes "\"" ++ (v ++ codes "\"")

unfoldable pub profile_args : Env → Bool → Bool → Text → List Argument
unfolding is_set text_eq
profile_args env is_asan debug target_os =
    assign (codes "is_debug") (bool_text (debug && not (text_eq target_os (codes "windows"))))
    ∷ (when is_asan (assign (codes "is_asan") (codes "true") ∷ [])
        ++ (assign (codes "use_custom_libcxx")
              (bool_text (is_set (env (codes "CARGO_FEATURE_USE_CUSTOM_LIBCXX"))))
            ∷ []))

unfoldable pub extra_args : Env → List Argument
unfolding is_set
extra_args env =
    if is_set (env (codes "CARGO_FEATURE_V8_ENABLE_SANDBOX"))
    then assign (codes "v8_enable_sandbox") (codes "true")
      ∷ assign (codes "v8_enable_external_code_space") (codes "true")
      ∷ assign (codes "v8_enable_pointer_compression") (codes "true")
      ∷ []
    else assign (codes "v8_enable_sandbox") (codes "false")
      ∷ assign (codes "v8_enable_pointer_compression")
          (bool_text (is_set (env (codes "CARGO_FEATURE_V8_ENABLE_POINTER_COMPRESSION"))))
      ∷ []

unfoldable pub feature_args : Env → Machine → List Argument
unfolding is_set extra_args
feature_args env machine =
    extra_args env
    ++ (assign (codes "v8_enable_v8_checks")
          (bool_text (is_set (env (codes "CARGO_FEATURE_V8_ENABLE_V8_CHECKS"))))
        ∷ assign (codes "rusty_v8_enable_simdutf")
            (bool_text (is_set (env (codes "CARGO_FEATURE_SIMDUTF"))))
        ∷ when machine.is_apple_silicon (assign (codes "host_cpu") (quoted (codes "arm64")) ∷ []))

unfoldable pub clang_path_args : Machine → Text → Text → List Argument
unfolding text_eq
clang_path_args machine target_os target_arch = elim (machine.system_clang) [
  | some path ↦
      assign (codes "clang_base_path") (machine.debug path)
      ∷ assign (codes "treat_warnings_as_errors") (codes "false")
      ∷ []
  | none ↦
      assign (codes "clang_base_path") (machine.debug machine.chromium_clang)
      ∷ when (text_eq target_os (codes "android") && text_eq target_arch (codes "aarch64"))
          (assign (codes "treat_warnings_as_errors") (codes "false") ∷ [])
]

unfoldable pub clang_args : Env → Machine → Text → Text → List Argument
unfolding is_set clang_path_args
clang_args env machine target_os target_arch =
    if is_set (env (codes "DISABLE_CLANG"))
    then assign (codes "is_clang") (codes "false")
      ∷ assign (codes "line_tables_only") (codes "false")
      ∷ []
    else clang_path_args machine target_os target_arch

abbrev pub or_else {ℓ} : {A : Type ℓ} → Option A → Option A → Option A
or_else none o = o
or_else (some a) o = some a

unfoldable pub cc_wrapper : Machine → Option Text → List Argument
cc_wrapper machine none = []
cc_wrapper machine (some path) = assign (codes "cc_wrapper") (machine.debug path) ∷ []

unfoldable pub cc_wrapper_args : Env → Machine → List Argument
unfolding cc_wrapper
cc_wrapper_args env machine = cc_wrapper machine (
    or_else (env (codes "SCCACHE"))
      (or_else machine.sccache (or_else (env (codes "CCACHE")) machine.ccache)))

-- `char::is_whitespace`.
unfoldable pub is_whitespace : ℕ → Bool
is_whitespace c =
    (leb 9 c && leb c 13)
    || ((c == 32)
        || ((c == 133)
            || ((c == 160)
                || ((c == 5760)
                    || ((leb 8192 c && leb c 8202)
                        || ((c == 8232)
                            || ((c == 8233) || ((c == 8239) || ((c == 8287) || (c == 12288))))))))))

-- Whether nothing is left by `trim`.
unfoldable pub is_blank : Text → Bool
unfolding is_whitespace
is_blank [] = true
is_blank (c ∷ s) = is_whitespace c && is_blank s

unfoldable pub caller_args : Text → Text → List Argument
unfolding is_blank text_eq contains
caller_args given target_os =
    when (not (is_blank given)) (verbatim given ∷ [])
    ++ when
        (text_eq target_os (codes "linux")
          && not (contains given (codes "v8_monolithic_for_shared_library")))
        (assign (codes "v8_monolithic_for_shared_library") (codes "true") ∷ [])

unfoldable pub cpu_args : Text → Text → List Argument
unfolding text_eq
cpu_args target_os target_arch =
    when (text_eq target_arch (codes "aarch64")) (
      assign (codes "target_cpu") (quoted (codes "arm64"))
      ∷ when (text_eq target_os (codes "linux")) (assign (codes "use_sysroot") (codes "true") ∷ []))
    ++ (when (text_eq target_arch (codes "arm")) (
          assign (codes "target_cpu") (quoted (codes "arm"))
          ∷ assign (codes "v8_target_cpu") (quoted (codes "arm"))
          ∷ assign (codes "use_sysroot") (codes "true")
          ∷ [])
        ++ when (text_eq target_arch (codes "riscv64")) (
            assign (codes "target_cpu") (quoted (codes "riscv64"))
            ∷ assign (codes "v8_target_cpu") (quoted (codes "riscv64"))
            ∷ when (text_eq target_os (codes "linux"))
                (assign (codes "use_sysroot") (codes "true") ∷ [])))

abbrev pub glibc : Text
glibc = codes "//build/toolchain/linux:clang_x64_glibc"

unfoldable pub musl_tools : Text → Option (List Argument)
unfolding text_eq
musl_tools target_arch =
    if text_eq target_arch (codes "x86_64")
    then some (
        assign (codes "host_toolchain") (quoted glibc)
        ∷ assign (codes "v8_snapshot_toolchain") (quoted glibc)
        ∷ [])
    else (if text_eq target_arch (codes "aarch64") then some [] else none)

abbrev pub sysroot_args : Option Text → List Argument
sysroot_args none = []
sysroot_args (some sysroot) = assign (codes "target_sysroot") (quoted sysroot) ∷ []

unfoldable pub is_musl : Env → Text → Bool
unfolding unwrap_or text_eq
is_musl env target_os =
    text_eq (unwrap_or [] (env (codes "CARGO_CFG_TARGET_ENV"))) (codes "musl")
    && text_eq target_os (codes "linux")

unfoldable pub musl_args : Env → Text → Text → Option (List Argument)
unfolding is_musl musl_tools
musl_args env target_os target_arch =
    if is_musl env target_os
    then (do
      tools ← musl_tools target_arch
      some (
          assign (codes "use_musl") (codes "true")
          ∷ assign (codes "use_glib") (codes "false")
          ∷ assign (codes "rust_prebuilt_stdlib") (codes "false")
          ∷ assign (codes "treat_warnings_as_errors") (codes "false")
          ∷ (tools ++ sysroot_args (env (codes "RUSTY_V8_MUSL_SYSROOT")))))
    else some []

unfoldable pub android_arch : Text → Text
unfolding text_eq
android_arch target_arch =
    if text_eq target_arch (codes "x86_64")
    then codes "x64"
    else (if text_eq target_arch (codes "aarch64") then codes "arm64" else codes "unknown")

-- A build for android on another machine.
unfoldable pub is_android : Text → Text → Text → Bool
unfolding text_eq
is_android target_os target host = not (text_eq target host) && text_eq target_os (codes "android")

unfoldable pub android_args : Text → Text → Text → Text → List Argument
unfolding is_android android_arch
android_args target_os target_arch target host = when (is_android target_os target host) (
    assign (codes "v8_target_cpu") (quoted (android_arch target_arch))
    ∷ assign (codes "target_cpu") (quoted (android_arch target_arch))
    ∷ assign (codes "target_os") (quoted (codes "android"))
    ∷ assign (codes "treat_warnings_as_errors") (codes "false")
    ∷ assign (codes "use_sysroot") (codes "true")
    ∷ [])

unfoldable pub is_simulator : Text → Bool
unfolding ends_with starts_with
is_simulator target =
    ends_with target (codes "-sim") || starts_with target (codes "x86_64-apple-ios")

unfoldable pub ios_args : Text → Text → Text → List Argument
unfolding is_simulator text_eq contains
ios_args given target_os target =
    let is_sim = is_simulator target in
    when (text_eq target_os (codes "ios") && not (contains given (codes "target_os=\"ios\""))) (
      assign (codes "target_os") (quoted (codes "ios"))
      ∷ assign (codes "target_environment")
          (quoted (if is_sim then codes "simulator" else codes "device"))
      ∷ assign (codes "ios_deployment_target") (quoted (codes "14.0"))
      ∷ assign (codes "ios_enable_code_signing") (codes "false")
      ∷ assign (codes "treat_warnings_as_errors") (codes "false")
      ∷ assign (codes "v8_enable_webassembly") (codes "false")
      ∷ when (not is_sim) (
          assign (codes "v8_jitless") (codes "true")
          ∷ assign (codes "v8_enable_sparkplug") (codes "false")
          ∷ assign (codes "v8_enable_maglev") (codes "false")
          ∷ assign (codes "v8_enable_turbofan") (codes "false")
          ∷ []))

unfoldable pub i686_args : Text → List Argument
unfolding starts_with
i686_args target =
    when (starts_with target (codes "i686-"))
      (assign (codes "target_cpu") (quoted (codes "x86")) ∷ [])

-- The arguments in their order, those for musl given.
abbrev pub all_args :
    Env → Machine → Bool → Bool → Text → Text → Text → Text → List Argument → List Argument
all_args env machine is_asan debug target_os target_arch target host musl =
    let given = unwrap_or [] (env (codes "GN_ARGS")) in
    profile_args env is_asan debug target_os
    ++ (feature_args env machine
        ++ (clang_args env machine target_os target_arch
            ++ (cc_wrapper_args env machine
                ++ (caller_args given target_os
                    ++ (cpu_args target_os target_arch
                        ++ (musl
                            ++ (android_args target_os target_arch target host
                                ++ (ios_args given target_os target ++ i686_args target))))))))

unfoldable pub gn_args : Env → Machine → Bool → Option (List Argument)
unfolding is_debug musl_args
gn_args env machine is_asan = do
  target_os ← env (codes "CARGO_CFG_TARGET_OS")
  target_arch ← env (codes "CARGO_CFG_TARGET_ARCH")
  debug ← is_debug env
  musl ← musl_args env target_os target_arch
  target ← env (codes "TARGET")
  host ← env (codes "HOST")
  some (all_args env machine is_asan debug target_os target_arch target host musl)
