-- ===== src/Build/Download/Cache.antt =====
-- When a file is downloaded again (build.rs): what a download leaves beside the archive, and what it
-- requests.
use rusty_v.Base.{
  ℕ, ◌+◌, ◌<◌, ◌≤◌, ◌≡◌, inl, inr, refl, ap, ◌∙◌, Bool, true, false, not, Option-cases, List,
  length, Option, none, some, arith, Text, text_eq, text_eq_refl,
}
use rusty_v.Build.Environment.{static_lib_url}
use rusty_v.Build.Download.{
  FilePath, static_checksum_path, Disk, store, M, continue, ◌>>◌, set_file, assert_exists,
  Downloader, deno, Host, header_of, unpack, unpack_from, copy_archive, run_downloader, fetch_file,
  has_checksum, fetch_and_store, cached, copy_or_fetch, unless_there, download_remote,
}
use rusty_v.Build.Download.Kept.{
  bind-eq, path_eq_refl, tmp_of, tmp-ne-sum, Apart, HasNoCopy, emptied, copy_archive-Keeps,
}

-- No request is taken back.
abbrev pub Grows : {A : Type 0} → ℕ → M A → Type 0
Grows n m = (d : Disk) → length d.requests + n ≤ length (m d).0.requests

-- A file beside the archive that is not there, or that does not hold the URL of the static library.
unfoldable pub stale : Option (List ℕ) → Text → Bool
stale none lib = true
stale (some c) lib = not (text_eq c lib)

module _ (host : Host) where
  unpack-Grows :
      (p : FilePath) (src header : List ℕ) (d : Disk)
      → (unpack host p src header d).0.requests ≡ d.requests
  unfolding unpack
  unpack-Grows p src header d = ground arith

  unpack_from-Grows :
      (p : FilePath) (src : List ℕ) (header : Option (List ℕ)) (d : Disk)
      → (unpack_from host p src header d).0.requests ≡ d.requests
  unfolding unpack_from
  unpack_from-Grows p src none d = refl
  unpack_from-Grows p src (some header) d = unpack-Grows p src header d

  pub copy_archive-Grows :
      (src p : FilePath) (d : Disk) → (copy_archive host src p d).0.requests ≡ d.requests
  unfolding copy_archive
  copy_archive-Grows src p d = elim (Option-cases (d.files src)) [
    | inl e ↦ rw e
    | inr (c, e) ↦ rw e (elim (Option-cases ((emptied host p d).files src)) [
      | inl e' ↦ rw e'
      | inr (c', e') ↦ rw e' (unpack_from-Grows p c' (header_of c') (emptied host p d))
    ])
  ]

  run_downloader-Grows :
      (tool : Downloader) (url : Text) (tmp : FilePath) → Grows 1 (run_downloader host tool url tmp)
  unfolding run_downloader
  run_downloader-Grows tool url tmp d = ground arith

  pub fetch_file-Grows : (url : Text) (tmp : FilePath) → Grows 1 (fetch_file host url tmp)
  unfolding fetch_file
  fetch_file-Grows url tmp d = ground (arith, run_downloader-Grows deno url tmp d)

  after_copy :
      (filename : FilePath) (d : Disk) (r : Disk × Option (Unit {0}))
      → Apart filename
      → r.0.files (static_checksum_path filename) ≡ d.files (static_checksum_path filename)
      → (continue r (λ _. do
        set_file (tmp_of filename) none
        assert_exists filename true
        assert_exists (static_checksum_path filename) true
        assert_exists (tmp_of filename) false)).0.files
          (static_checksum_path filename)
        ≡ d.files (static_checksum_path filename)
  after_copy filename d (d', none) a h = h
  after_copy filename d (d', some u) a h = let t = tmp-ne-sum filename in ground arith

  pub store-sum :
      (url : Text) (filename : FilePath) (d : Disk)
      → Apart filename
      → (store host url filename d).0.files (static_checksum_path filename) ≡ some url
  unfolding store
  store-sum url filename d a =
      let sum = static_checksum_path filename in
      let d' = (set_file sum (some url) d).0 in
      after_copy filename d' (copy_archive host (tmp_of filename) filename d') a
        (copy_archive-Keeps host sum (tmp_of filename) filename a d')
      ∙ rw (path_eq_refl sum)

  pub fetch_and_store-sum :
      (url : Text) (filename : FilePath) (d : Disk)
      → Apart filename
      → (fetch_and_store host url filename d).1 ≡ some tt
      → (fetch_and_store host url filename d).0.files (static_checksum_path filename) ≡ some url
  unfolding fetch_and_store
  fetch_and_store-sum url filename d a e =
      let tmp = tmp_of filename in
      let d₀ = (set_file tmp none d).0 in
      let d₁ = (fetch_file host url tmp d₀).0 in
      let d₂ = (assert_exists tmp true d₁).0 in ground (arith, store-sum url filename d₁ a)

  store-Grows :
      (url : Text) (filename : FilePath) (d : Disk)
      → (store host url filename d).0.requests ≡ d.requests
  unfolding store
  store-Grows url filename d =
      let d' = (set_file (static_checksum_path filename) (some url) d).0 in
      ground (arith, copy_archive-Grows (tmp_of filename) filename d')

  pub fetch_and_store-Grows :
      (url : Text) (filename : FilePath) (d : Disk)
      → length d.requests < length (fetch_and_store host url filename d).0.requests
  unfolding fetch_and_store
  fetch_and_store-Grows url filename d =
      let tmp = tmp_of filename in
      let d₀ = (set_file tmp none d).0 in
      let d₁ = (fetch_file host url tmp d₀).0 in
      ground (arith, fetch_file-Grows url tmp d₀, store-Grows url filename d₁)

  has_checksum-some :
      (lib : Text) (filename : FilePath) (d : Disk) (c : List ℕ)
      → static_lib_url host.env ≡ some lib
      → d.files (static_checksum_path filename) ≡ some c
      → has_checksum host filename d ≡ (d, some (text_eq c lib))
  unfolding has_checksum
  has_checksum-some lib filename d c l s = rw (s, l)

  has_checksum-none :
      (filename : FilePath) (d : Disk)
      → d.files (static_checksum_path filename) ≡ none
      → has_checksum host filename d ≡ (d, some false)
  unfolding has_checksum
  has_checksum-none filename d s = rw s

  cached-none :
      (url : Text) (filename : FilePath) (d : Disk) (home : Option Text)
      → host.cargo_home ≡ home
      → HasNoCopy host home url filename d
      → cached host url d ≡ (d, some none)
  unfolding cached
  cached-none url filename d none e h = rw e
  cached-none url filename d (some home) e h = rw e (rw h.0)

  pub download_remote-stale :
      (url lib : Text) (filename : FilePath) (d : Disk)
      → static_lib_url host.env ≡ some lib
      → HasNoCopy host host.cargo_home url filename d
      → stale (d.files (static_checksum_path filename)) lib ≡ true
      → download_remote host url filename d ≡ fetch_and_store host url filename d
  unfolding download_remote stale
  download_remote-stale url lib filename d l home s =
      elim (Option-cases (d.files (static_checksum_path filename))) [
        | inl e ↦
            bind-eq (has_checksum host filename) (unless_there host url filename) d
              (has_checksum-none filename d e)
            ∙ bind-eq (cached host url) (copy_or_fetch host url filename) d
                (cached-none url filename d host.cargo_home refl home)
        | inr (c, e) ↦
            let differs : text_eq c lib ≡ false = ground arith in
            bind-eq (has_checksum host filename) (unless_there host url filename) d
              (has_checksum-some lib filename d c l e ∙ ap (λ b. (d, some b)) differs)
            ∙ bind-eq (cached host url) (copy_or_fetch host url filename) d
                (cached-none url filename d host.cargo_home refl home)
      ]

  pub download_remote-hit :
      (url lib : Text) (filename : FilePath) (d : Disk)
      → static_lib_url host.env ≡ some lib
      → d.files (static_checksum_path filename) ≡ some lib
      → download_remote host url filename d ≡ (d, some tt)
  unfolding download_remote
  download_remote-hit url lib filename d l s =
      bind-eq (has_checksum host filename) (unless_there host url filename) d
        (has_checksum-some lib filename d lib l s ∙ ap (λ b. (d, some b)) (text_eq_refl lib))
