-- ===== src/Build/Download.antt =====
-- `download_file` and `copy_archive` of build.rs: how the prebuilt archive, or the prebuilt bindings, come
-- to their place, and the file beside it with the URL that it came from.
--
-- A run that panics keeps what it has done to the files. The programs that download, what
-- decompression makes of an archive, and cargo's home are parameters.
pub mod Kept
pub mod Cache
pub mod Again
use rusty_v.Base.{
  ℕ, ◌+◌, ◌≡◌, Bool, true, false, not, ◌&&◌, ◌||◌, if◌then◌else◌, ◌==◌, List, [], ◌∷◌, ◌++◌, Option,
  none, some, Text, codes, text_eq, starts_with,
}
use rusty_v.Build.Environment.{
  Env, is_set, static_lib_url, static_lib_name, replace_non_alphanumeric, prebuilt_profile,
  prebuilt_features_suffix,
}

-- The directory, the name up to its last dot, and what stands behind that.
pub record FilePath : Type 0 where
  pub dir : Text
  pub stem : Text
  pub extension : Text

unfoldable pub path_eq : FilePath → FilePath → Bool
unfolding text_eq
path_eq p q = text_eq p.dir q.dir && (text_eq p.stem q.stem && text_eq p.extension q.extension)

unfoldable pub with_extension : FilePath → Text → FilePath
with_extension p e = record p { extension = e }

unfoldable pub static_checksum_path : FilePath → FilePath
unfolding with_extension
static_checksum_path p = with_extension p (codes "sum")

-- The files with their bytes, and the URLs that the downloaders were called with.
pub record Disk : Type 0 where
  pub files : FilePath → Option (List ℕ)
  pub requests : List Text

-- A run to its end or to a panic.
abbrev pub M : Type 0 → Type 0
M A = Disk → Disk × Option A

abbrev pub continue : {A B : Type 0} → Disk × Option A → (A → M B) → Disk × Option B
continue (d, none) f = (d, none)
continue (d, some a) f = f a d

infixl 5 ◌>>=◌ ◌>>◌
abbrev pub ◌>>=◌ : {A B : Type 0} → M A → (A → M B) → M B
◌>>=◌ m f d = continue (m d) f

abbrev pub ◌>>◌ : {B : Type 0} → M (Unit {0}) → M B → M B
◌>>◌ m k d = continue (m d) (λ _. k)

abbrev pub return : {A : Type 0} → A → M A
return a d = (d, some a)

abbrev pub panic : {A : Type 0} → M A
panic d = (d, none)

abbrev pub read_file : FilePath → M (Option (List ℕ))
read_file p d = (d, some (d.files p))

abbrev pub set_file : FilePath → Option (List ℕ) → M (Unit {0})
set_file p c d = (record d { files = λ q. if path_eq p q then c else d.files q }, some tt)

abbrev pub request : Text → M (Unit {0})
request url d = (record d { requests = url ∷ d.requests }, some tt)

abbrev pub assert_exists : FilePath → Bool → M (Unit {0})
assert_exists p expected d = elim (d.files p) [
  | none ↦ (d, (if expected then none else some tt))
  | some c ↦ (d, (if expected then some tt else none))
]

pub data Downloader : Type 0 where
  deno python curl : Downloader

-- A downloader that could not be started, one that failed and one that succeeded, with what it has
-- written to the file that it was given, if anything.
pub data Attempt : Type 0 where
  not_started : Attempt
  exited : (success : Bool) → Option (List ℕ) → Attempt

pub record Host : Type 0 where
  pub env : Env
  pub fetch : Downloader → Text → Attempt
  -- What `decompress_to_writer` writes, and whether it returns without an error.
  pub decompress : List ℕ → List ℕ × Bool
  pub cargo_home : Option Text
  pub path_of : Text → FilePath

abbrev pub gzip_header : List ℕ
gzip_header = 0x1f ∷ 0x8b ∷ []

unfoldable pub header_of : List ℕ → Option (List ℕ)
header_of [] = none
header_of (a ∷ []) = none
header_of (a ∷ b ∷ rest) = some (a ∷ b ∷ [])

module _ (host : Host) where
  -- The contents of an opened archive, to a file that has been created.
  unfoldable pub unpack : FilePath → List ℕ → List ℕ → M (Unit {0})
  unfolding text_eq
  unpack filename src header =
      if text_eq header gzip_header
      then (do
        set_file filename (some ((host.decompress src).0))
        if (host.decompress src).1 then return tt else panic)
      else set_file filename (some src)

  -- `read_exact` of two bytes fails on a shorter file.
  unfoldable pub unpack_from : FilePath → List ℕ → Option (List ℕ) → M (Unit {0})
  unfolding unpack
  unpack_from filename src none = panic
  unpack_from filename src (some header) = unpack filename src header

  unfoldable pub copy_archive : FilePath → FilePath → M (Unit {0})
  unfolding unpack_from header_of
  copy_archive url filename = do
    opened ← read_file url
    elim opened [
      | none ↦ panic
      | some _ ↦ do
        set_file filename (some [])
        src ← read_file url
        elim src [ none ↦ panic | some c ↦ unpack_from filename c (header_of c) ]
    ]

  -- A downloader is run; its exit status, if it could be started.
  unfoldable pub run_downloader : Downloader → Text → FilePath → M (Option Bool)
  run_downloader tool url tmpfile = do
    request url
    elim (host.fetch tool url) [
      | not_started ↦ return none
      | exited success none ↦ return (some success)
      | exited success (some c) ↦ do set_file tmpfile (some c); return (some success)
    ]

  -- First deno, then python, then curl; whether the last that was run has succeeded.
  unfoldable pub fetch_file : Text → FilePath → M Bool
  unfolding run_downloader
  fetch_file url tmpfile = do
    first ← run_downloader deno url tmpfile
    elim first [
      | some true ↦ return true
      | _ ↦ do
        second ← run_downloader python url tmpfile
        elim second [
          | some true ↦ return true
          | _ ↦ do
            third ← run_downloader curl url tmpfile
            elim third [ none ↦ panic | some success ↦ return success ]
        ]
    ]

  -- The file beside the archive holds the URL of the static library.
  unfoldable pub has_checksum : FilePath → M Bool
  unfolding text_eq static_checksum_path static_lib_url
  has_checksum filename = do
    sum ← read_file (static_checksum_path filename)
    elim sum [
      | none ↦ return false
      | some c ↦ elim (static_lib_url host.env) [ none ↦ panic | some url ↦ return (text_eq c url) ]
    ]

  -- The URL is written beside the archive, and then the archive to its place.
  unfoldable pub store : Text → FilePath → M (Unit {0})
  unfolding copy_archive static_checksum_path with_extension
  store url filename = do
    let tmpfile = with_extension filename (codes "tmp")
    set_file (static_checksum_path filename) (some url)
    copy_archive tmpfile filename
    set_file tmpfile none
    assert_exists filename true
    assert_exists (static_checksum_path filename) true
    assert_exists tmpfile false

  unfoldable pub after_fetch : Text → FilePath → Bool → M (Unit {0})
  unfolding store with_extension
  after_fetch url filename success = do
    if success then return tt else panic
    assert_exists (with_extension filename (codes "tmp")) true
    store url filename

  -- A download to the temporary file, and from there to the archive's place.
  unfoldable pub fetch_and_store : Text → FilePath → M (Unit {0})
  unfolding fetch_file after_fetch with_extension
  fetch_and_store url filename = do
    let tmpfile = with_extension filename (codes "tmp")
    set_file tmpfile none
    success ← fetch_file url tmpfile
    after_fetch url filename success

  -- A copy of the file in cargo's home.
  unfoldable pub cached_path : Text → Text → FilePath
  unfolding replace_non_alphanumeric
  cached_path home url = record {
    dir = home ++ codes "/.rusty_v8";
    stem = replace_non_alphanumeric url;
    extension = [];
  }

  unfoldable pub cached : Text → M (Option FilePath)
  unfolding cached_path
  cached url = elim (host.cargo_home) [
    | none ↦ return none
    | some home ↦ do
      found ← read_file (cached_path home url)
      elim found [ none ↦ return none | some c ↦ return (some (cached_path home url)) ]
  ]

  unfoldable pub is_remote : Text → Bool
  unfolding starts_with
  is_remote url = starts_with url (codes "http:") || starts_with url (codes "https:")

  unfoldable pub copy_or_fetch : Text → FilePath → Option FilePath → M (Unit {0})
  unfolding copy_archive fetch_and_store
  copy_or_fetch url filename (some path) = copy_archive path filename
  copy_or_fetch url filename none = fetch_and_store url filename

  -- Nothing is done where the file beside the archive holds the URL.
  unfoldable pub unless_there : Text → FilePath → Bool → M (Unit {0})
  unfolding cached copy_or_fetch
  unless_there url filename true = return tt
  unless_there url filename false = do copy ← cached url; copy_or_fetch url filename copy

  unfoldable pub download_remote : Text → FilePath → M (Unit {0})
  unfolding has_checksum unless_there
  download_remote url filename = do there ← has_checksum filename; unless_there url filename there

  unfoldable pub download_file : Text → FilePath → M (Unit {0})
  unfolding is_remote download_remote copy_archive
  download_file url filename =
      if is_remote url
      then download_remote url filename
      else copy_archive (host.path_of url) filename

  -- To the directory of the libraries.
  unfoldable pub download_static_lib_binaries : Text → M (Unit {0})
  unfolding download_file static_lib_url static_lib_name
  download_static_lib_binaries dir = elim (static_lib_url host.env) [
    | none ↦ panic
    | some url ↦ elim (static_lib_name host.env []) [
      | none ↦ panic
      | some name ↦ download_file url (host.path_of (dir ++ (codes "/" ++ name)))
    ]
  ]

  -- The name of the bindings of this target, profile and choice of features.
  unfoldable pub src_binding_name : Option Text
  unfolding prebuilt_profile prebuilt_features_suffix
  src_binding_name = elim (host.env (codes "TARGET")) [
    | none ↦ none
    | some target ↦ elim (prebuilt_profile host.env) [
      | none ↦ none
      | some profile ↦ some (
          codes "src_binding"
          ++ (prebuilt_features_suffix host.env
              ++ (codes "_" ++ (profile ++ (codes "_" ++ (target ++ codes ".rs"))))))
    ]
  ]

  -- The path that is printed. With a mirror the bindings are downloaded to the directory `gen`.
  unfoldable pub print_prebuilt_src_binding_path : Text → M Text
  unfolding src_binding_name download_file
  print_prebuilt_src_binding_path gen = elim (host.env (codes "RUSTY_V8_SRC_BINDING_PATH")) [
    | some binding ↦ return binding
    | none ↦ elim src_binding_name [
      | none ↦ panic
      | some name ↦
          let path = gen ++ (codes "/" ++ name) in
          elim (host.env (codes "RUSTY_V8_MIRROR")) [
            | none ↦ return path
            | some base ↦ elim (host.env (codes "CARGO_PKG_VERSION")) [
              | none ↦ panic
              | some version ↦ do
                download_file (base ++ (codes "/v" ++ (version ++ (codes "/" ++ name))))
                    (host.path_of path)
                return path
            ]
          ]
    ]
  ]
