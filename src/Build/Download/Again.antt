-- ===== src/Build/Download/Again.antt =====
-- What a second run of the build script does after one that has returned, and after one that has not.
use rusty_v.Base.{
  ℕ, ◌<◌, ◌≡◌, ◌≢◌, ◌⊎◌, inl, inr, sym, ap, ◌∙◌, subst, true, false, Bool-cases, List, length,
  Option, none, some, Text, text_eq, text_eq_refl, text_eq→≡,
}
use rusty_v.Build.Environment.{static_lib_url}
use rusty_v.Build.Download.{
  FilePath, path_eq, static_checksum_path, Disk, Host, gzip_header, header_of, set_file,
  assert_exists, fetch_file, after_fetch, store, copy_archive, fetch_and_store, is_remote,
  download_file, download_remote, unpack, unpack_from,
}
use rusty_v.Build.Download.Kept.{
  Apart, HasNoCopy, fetch_and_store-HasNoCopy, tmp_of, sum-ne-tmp, bind-none, bind-eq, emptied,
  path_eq_refl,
}
use rusty_v.Build.Download.Cache.{
  stale, fetch_and_store-sum, fetch_and_store-Grows, download_remote-stale, download_remote-hit,
}

differs : (s t : Text) → text_eq s t ≡ false → s ≢ t
differs s t e p = cc (text_eq_refl s)

same_or_other : (s t : Text) → (s ≡ t) ⊎ ((s ≢ t) × (text_eq s t ≡ false))
same_or_other s t = elim (Bool-cases (text_eq s t)) [
  | inl e ↦ inl (text_eq→≡ s t e)
  | inr e ↦ inr (differs s t e, e)
]

exists :
    (p : FilePath) (d : Disk) (c : List ℕ)
    → d.files p ≡ some c
    → assert_exists p true d ≡ (d, some tt)
exists p d c e = rw (assert_exists, e)

module _ (host : Host) (url : Text) (filename : FilePath) where
  remote :
      (d : Disk)
      → is_remote host url ≡ true
      → download_file host url filename d ≡ download_remote host url filename d
  unfolding download_file
  remote d r = rw r

  -- The disk after a run.
  abbrev pub after_run : Disk → Disk
  after_run d = (download_file host url filename d).0

  -- The second run does nothing, or asks for a download again.
  abbrev pub Repeats : Text → Disk → Type 0
  Repeats lib d =
      ((url ≡ lib) × (download_file host url filename d ≡ (d, some tt)))
      ⊎ ((url ≢ lib) × (length d.requests < length (after_run d).requests))

  module _ (lib : Text) (l : static_lib_url host.env ≡ some lib) (r : is_remote host url ≡ true)
      (a : Apart filename) where
    fetches :
        (d : Disk)
        → HasNoCopy host host.cargo_home url filename d
        → stale (d.files (static_checksum_path filename)) lib ≡ true
        → download_file host url filename d ≡ fetch_and_store host url filename d
    fetches d home s = remote d r ∙ download_remote-stale host url lib filename d l home s

    stale-other : url ≢ lib → text_eq url lib ≡ false → stale (some url) lib ≡ true
    unfolding stale
    stale-other n e = rw e

    fetched :
        (d : Disk)
        → HasNoCopy host host.cargo_home url filename d
        → (fetch_and_store host url filename d).1 ≡ some tt
        → (length d.requests < length (fetch_and_store host url filename d).0.requests)
          × Repeats lib (fetch_and_store host url filename d).0
    unfolding fetch_and_store download_file
    fetched d home done =
        let d' = (fetch_and_store host url filename d).0 in
        let sum : d'.files (static_checksum_path filename) ≡ some url =
          fetch_and_store-sum host url filename d a done in
        (
          fetch_and_store-Grows host url filename d,
          elim (same_or_other url lib) [
            | inl e ↦
                inl (
                  e,
                  remote d' r ∙ download_remote-hit host url lib filename d' l (sum ∙ ap some e),
                )
            | inr (n, e) ↦ inr (
              n,
              rw
                  (fetches d' (fetch_and_store-HasNoCopy host host.cargo_home url filename d home)
                    (rw sum (stale-other n e)))
                  (fetch_and_store-Grows host url filename d'),
            )
          ],
        )

  -- Without a cargo home or a copy in it, whose place is none that the download writes, and where the file beside the archive is not there or holds another text
  -- than the URL of the static library: a run of download_file for a remote URL that returns has
  -- asked for a download, and the next run does nothing if the URL is that of the static library, and
  -- asks for a download again if it is any other.
  pub download_file-Repeats :
      (lib : Text) (d : Disk)
      → static_lib_url host.env ≡ some lib
      → HasNoCopy host host.cargo_home url filename d
      → is_remote host url ≡ true
      → Apart filename
      → stale (d.files (static_checksum_path filename)) lib ≡ true
      → (download_file host url filename d).1 ≡ some tt
      → (length d.requests < length (after_run d).requests) × Repeats lib (after_run d)
  unfolding download_file
  download_file-Repeats lib d l home r a s done =
      let e = fetches lib l r a d home s in rw e (fetched lib l r a d home (rw e at done))

  abbrev partial : List ℕ → Disk → Disk
  partial src d = (set_file filename (some ((host.decompress src).0)) d).0

  unpack_fails :
      (d : Disk) (src header : List ℕ)
      → header ≡ gzip_header
      → (host.decompress src).1 ≡ false
      → unpack host filename src header d ≡ (partial src d, none)
  unfolding unpack
  unpack_fails d src header e fails = rw e (rw fails)

  unpack_from_fails :
      (d : Disk) (src : List ℕ) (header : Option (List ℕ))
      → header ≡ some gzip_header
      → (host.decompress src).1 ≡ false
      → unpack_from host filename src header d ≡ (partial src d, none)
  unfolding unpack_from
  unpack_from_fails d src none e fails = cc
  unpack_from_fails d src (some header) e fails =
      let same : header ≡ gzip_header = cc in unpack_fails d src header same fails

  copy_fails :
      (d : Disk) (path : FilePath) (src : List ℕ)
      → path_eq filename path ≡ false
      → d.files path ≡ some src
      → header_of src ≡ some gzip_header
      → (host.decompress src).1 ≡ false
      → copy_archive host path filename d ≡ (partial src (emptied host filename d), none)
  unfolding copy_archive
  copy_fails d path src apart there header fails = rw there (
      rw apart
        (rw there (unpack_from_fails (emptied host filename d) src (header_of src) header fails)))

  -- A downloaded archive whose decompression fails after the URL has been written.
  store_fails :
      (d : Disk) (src : List ℕ)
      → Apart filename
      → path_eq filename (tmp_of filename) ≡ false
      → d.files (tmp_of filename) ≡ some src
      → header_of src ≡ some gzip_header
      → (host.decompress src).1 ≡ false
      → store host url filename d ≡ (
        partial src
            (emptied host filename ((set_file (static_checksum_path filename) (some url) d).0)),
        none,
      )
  unfolding store
  store_fails d src a apart there header fails =
      let d' = (set_file (static_checksum_path filename) (some url) d).0 in
      let there' : d'.files (tmp_of filename) ≡ some src = rw (sum-ne-tmp filename) there in
      bind-none (copy_archive host (tmp_of filename) filename) _ d'
        (copy_fails d' (tmp_of filename) src apart there' header fails)

  -- The disk after that.
  abbrev broken : List ℕ → Disk → Disk
  broken src d =
      partial src
        (emptied host filename ((set_file (static_checksum_path filename) (some url) d).0))

  fetch_and_store_fails :
      (d d₁ : Disk) (src : List ℕ)
      → Apart filename
      → path_eq filename (tmp_of filename) ≡ false
      → fetch_file host url (tmp_of filename) ((set_file (tmp_of filename) none d).0)
        ≡ (d₁, some true)
      → d₁.files (tmp_of filename) ≡ some src
      → header_of src ≡ some gzip_header
      → (host.decompress src).1 ≡ false
      → fetch_and_store host url filename d ≡ (broken src d₁, none)
  unfolding fetch_and_store after_fetch
  fetch_and_store_fails d d₁ src a apart success there header fails =
      bind-eq (fetch_file host url (tmp_of filename)) (after_fetch host url filename)
        ((set_file (tmp_of filename) none d).0) success
      ∙ bind-eq (assert_exists (tmp_of filename) true) (λ _. store host url filename) d₁
          (exists (tmp_of filename) d₁ src there)
      ∙ store_fails d₁ src a apart there header fails

  broken-sum :
      (src : List ℕ) (d : Disk)
      → Apart filename
      → (broken src d).files (static_checksum_path filename) ≡ some url
  broken-sum src d a = rw a (rw (path_eq_refl (static_checksum_path filename)))

  -- Where the URL is that of the static library, without a cargo home or a copy in it, whose place is none that the
  -- download writes: if an archive is downloaded
  -- whose decompression fails, download_file panics with the URL written and part of the archive in its
  -- place, and the next run returns and leaves it so, without a download.
  pub download_file_interrupted :
      (d d₁ : Disk) (src : List ℕ)
      → static_lib_url host.env ≡ some url
      → HasNoCopy host host.cargo_home url filename d
      → is_remote host url ≡ true
      → Apart filename
      → path_eq filename (tmp_of filename) ≡ false
      → stale (d.files (static_checksum_path filename)) url ≡ true
      → fetch_file host url (tmp_of filename) ((set_file (tmp_of filename) none d).0)
        ≡ (d₁, some true)
      → d₁.files (tmp_of filename) ≡ some src
      → header_of src ≡ some gzip_header
      → (host.decompress src).1 ≡ false
      → ((download_file host url filename d).1 ≡ none)
        × ((after_run d).files (static_checksum_path filename) ≡ some url)
        × ((after_run d).files filename ≡ some ((host.decompress src).0))
        × (download_file host url filename (after_run d) ≡ (after_run d, some tt))
  download_file_interrupted d d₁ src l home r a apart s success there header fails =
      let run : download_file host url filename d ≡ (broken src d₁, none) =
        fetches url l r a d home s
        ∙ fetch_and_store_fails d d₁ src a apart success there header fails in
      let sum : (broken src d₁).files (static_checksum_path filename) ≡ some url =
        broken-sum src d₁ a in
      let again : download_file host url filename (broken src d₁) ≡ (broken src d₁, some tt) =
        remote (broken src d₁) r
        ∙ download_remote-hit host url url filename (broken src d₁) l sum in
      (
        ap (λ q. q.1) run,
        ap (λ q. q.0.files (static_checksum_path filename)) run ∙ sum,
        ap (λ q. q.0.files filename) run ∙ rw (path_eq_refl filename),
        subst (λ q. download_file host url filename q.0 ≡ (q.0, some tt)) (sym run) again,
      )
