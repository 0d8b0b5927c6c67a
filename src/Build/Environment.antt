-- ===== src/Build/Environment.antt =====
-- What the build script reads from its environment: flags, the profile, and the names of the prebuilt
-- archive and of where it is.
--
-- A variable that is not set, or that is not Unicode, is `none`; `none` of a function is its panic.
use rusty_v.Base.{
  ℕ, Bool, true, false, not, ◌&&◌, ◌||◌, if◌then◌else◌, leb, [], ◌++◌, map, Option, none, some,
  ◌>>=◌, Text, codes, text_eq,
}

-- `env::var`.
abbrev pub Env : Type 0
Env = Text → Option Text

unfoldable pub is_set : Option Text → Bool
is_set none = false
is_set (some v) = true

unfoldable pub unwrap_or : Text → Option Text → Text
unwrap_or d none = d
unwrap_or d (some v) = v

unfoldable pub env_bool : Env → Text → Bool
unfolding unwrap_or text_eq
env_bool env key =
    let v = unwrap_or [] (env key) in
    text_eq v (codes "true") || (text_eq v (codes "1") || text_eq v (codes "yes"))

unfoldable pub is_windows : Env → Option Bool
unfolding text_eq
is_windows env = do
  target_os ← env (codes "CARGO_CFG_TARGET_OS")
  some (text_eq target_os (codes "windows"))

unfoldable pub prebuilt_profile : Env → Option Text
unfolding is_windows env_bool
prebuilt_profile env = do
  windows ← is_windows env
  some (
      if not windows && env_bool env (codes "V8_FORCE_DEBUG")
      then codes "debug"
      else codes "release")

unfoldable pub prebuilt_features_suffix : Env → Text
unfolding is_set
prebuilt_features_suffix env =
    (if is_set (env (codes "CARGO_FEATURE_V8_ENABLE_POINTER_COMPRESSION"))
      then codes "_ptrcomp"
      else [])
    ++ ((if is_set (env (codes "CARGO_FEATURE_V8_ENABLE_SANDBOX")) then codes "_sandbox" else [])
        ++ (if is_set (env (codes "CARGO_FEATURE_SIMDUTF")) then codes "_simdutf" else []))

unfoldable pub static_lib_name : Env → Text → Option Text
unfolding is_windows
static_lib_name env suffix = do
  windows ← is_windows env
  some (
      if windows
      then codes "rusty_v8" ++ (suffix ++ codes ".lib")
      else codes "librusty_v8" ++ (suffix ++ codes ".a"))

abbrev pub default_base : Text
default_base = codes "https://github.com/denoland/rusty_v8/releases/download"

unfoldable pub release_url : Env → Option Text
unfolding unwrap_or prebuilt_profile prebuilt_features_suffix static_lib_name
release_url env = do
  let base = unwrap_or default_base (env (codes "RUSTY_V8_MIRROR"))
  version ← env (codes "CARGO_PKG_VERSION")
  target ← env (codes "TARGET")
  profile ← prebuilt_profile env
  let features = prebuilt_features_suffix env
  name ← static_lib_name env (features ++ (codes "_" ++ (profile ++ (codes "_" ++ target))))
  some (base ++ (codes "/v" ++ (version ++ (codes "/" ++ (name ++ codes ".gz")))))

unfoldable pub static_lib_url : Env → Option Text
unfolding release_url
static_lib_url env = elim (env (codes "RUSTY_V8_ARCHIVE")) [
  | some custom_archive ↦ some custom_archive
  | none ↦ release_url env
]

-- `char::is_ascii_alphanumeric`.
unfoldable pub is_ascii_alphanumeric : ℕ → Bool
is_ascii_alphanumeric c =
    (leb b'0' c && leb c b'9') || ((leb b'a' c && leb c b'z') || (leb b'A' c && leb c b'Z'))

unfoldable pub replace_non_alphanumeric : Text → Text
unfolding is_ascii_alphanumeric
replace_non_alphanumeric url = map (λ c. if is_ascii_alphanumeric c then c else b'_') url

-- Cargo sets PROFILE to one of two values.
unfoldable pub is_debug : Env → Option Bool
unfolding text_eq
is_debug env = do
  m ← env (codes "PROFILE")
  if text_eq m (codes "release")
      then some false
      else (if text_eq m (codes "debug") then some true else none)
