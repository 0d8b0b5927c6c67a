-- ===== src/Build/Download/Kept.antt =====
-- What the steps of a download (build.rs) leave of the other files.
use rusty_v.Base.{
  ℕ, ◌≡◌, inl, inr, refl, ap, ◌∙◌, Bool, true, false, Option-cases, List, [], Option, none, some,
  arith, Text, codes, text_eq_refl,
}
use rusty_v.Build.Download.{
  FilePath, path_eq, with_extension, static_checksum_path, Disk, store, M, continue, ◌>>=◌,
  set_file, assert_exists, Downloader, deno, python, curl, panic, return, Host, header_of, unpack,
  unpack_from, copy_archive, run_downloader, fetch_file, fetch_and_store, cached_path,
}

-- Whether it returns or panics, a step leaves a file as it was.
abbrev pub Keeps : {A : Type 0} → FilePath → M A → Type 0
Keeps q m = (d : Disk) → (m d).0.files q ≡ d.files q

pub bind-eq :
    {A B : Type 0} {a : A} (m : M A) (f : A → M B) (d : Disk) {d' : Disk}
    → m d ≡ (d', some a)
    → (m >>= f) d ≡ f a d'
bind-eq m f d e = rw e

pub bind-none :
    {A B : Type 0} (m : M A) (f : A → M B) (d : Disk) {d' : Disk}
    → m d ≡ (d', none)
    → (m >>= f) d ≡ (d', none)
bind-none m f d e = rw e

pub set_file-Keeps :
    (p q : FilePath) (c : Option (List ℕ)) → path_eq p q ≡ false → Keeps q (set_file p c)
set_file-Keeps p q c h d = rw h

pub assert_exists-same : (p : FilePath) (b : Bool) (d : Disk) → (assert_exists p b d).0 ≡ d
assert_exists-same p b d = ground arith

pub path_eq_refl : (p : FilePath) → path_eq p p ≡ true
unfolding path_eq
path_eq_refl p = rw (text_eq_refl p.dir, text_eq_refl p.stem, text_eq_refl p.extension)

abbrev pub tmp_of : FilePath → FilePath
tmp_of filename = with_extension filename (codes "tmp")

pub sum-ne-tmp :
    (filename : FilePath) → path_eq (static_checksum_path filename) (tmp_of filename) ≡ false
unfolding path_eq static_checksum_path
sum-ne-tmp p = rw (text_eq_refl p.dir, text_eq_refl p.stem)

pub tmp-ne-sum :
    (filename : FilePath) → path_eq (tmp_of filename) (static_checksum_path filename) ≡ false
unfolding path_eq static_checksum_path
tmp-ne-sum p = rw (text_eq_refl p.dir, text_eq_refl p.stem)

-- The archive is not the file beside it.
abbrev pub Apart : FilePath → Type 0
Apart filename = path_eq filename (static_checksum_path filename) ≡ false

-- There is no cargo home, or no copy of the file in it; and the copy's place is none of the three files
-- that a download writes.
abbrev pub HasNoCopy : Host → Option Text → Text → FilePath → Disk → Type 0
HasNoCopy host none url filename d = Unit
HasNoCopy host (some home) url filename d =
    (d.files (cached_path host home url) ≡ none)
    × (path_eq filename (cached_path host home url) ≡ false)
    × (path_eq (tmp_of filename) (cached_path host home url) ≡ false)
    × (path_eq (static_checksum_path filename) (cached_path host home url) ≡ false)

continue-Keeps :
    {A B : Type 0} (q : FilePath) (c : Option (List ℕ)) (f : A → M B) (r : Disk × Option A)
    → r.0.files q ≡ c
    → ((a : A) → Keeps q (f a))
    → (continue r f).0.files q ≡ c
continue-Keeps q c f (d, none) e k = e
continue-Keeps q c f (d, some a) e k = k a d ∙ e

bind-Keeps :
    {A B : Type 0} (q : FilePath) (m : M A) (f : A → M B)
    → Keeps q m
    → ((a : A) → Keeps q (f a))
    → Keeps q (m >>= f)
bind-Keeps q m f e k d = continue-Keeps q (d.files q) f (m d) (e d) k

assert_exists-Keeps : (q p : FilePath) (b : Bool) → Keeps q (assert_exists p b)
assert_exists-Keeps q p b d = ap (λ x. x.files q) (assert_exists-same p b d)

module _ (host : Host) where
  unpack-Keeps :
      (q p : FilePath) (src header : List ℕ)
      → path_eq p q ≡ false
      → Keeps q (unpack host p src header)
  unfolding unpack
  unpack-Keeps q p src header h d = ground arith

  unpack_from-Keeps :
      (q p : FilePath) (src : List ℕ) (header : Option (List ℕ))
      → path_eq p q ≡ false
      → Keeps q (unpack_from host p src header)
  unfolding unpack_from
  unpack_from-Keeps q p src none h d = refl
  unpack_from-Keeps q p src (some header) h d = unpack-Keeps q p src header h d

  abbrev pub emptied : FilePath → Disk → Disk
  emptied p d = (set_file p (some []) d).0

  pub copy_archive-Keeps :
      (q src p : FilePath) → path_eq p q ≡ false → Keeps q (copy_archive host src p)
  unfolding copy_archive
  copy_archive-Keeps q src p h d = elim (Option-cases (d.files src)) [
    | inl e ↦ rw e
    | inr (c, e) ↦ rw e (elim (Option-cases ((emptied p d).files src)) [
      | inl e' ↦ rw e' (rw h)
      | inr (c', e') ↦ rw e' (unpack_from-Keeps q p c' (header_of c') h (emptied p d) ∙ rw h refl)
    ])
  ]

  run_downloader-Keeps :
      (q : FilePath) (tool : Downloader) (url : Text) (tmp : FilePath)
      → path_eq tmp q ≡ false
      → Keeps q (run_downloader host tool url tmp)
  unfolding run_downloader
  run_downloader-Keeps q tool url tmp h d = ground arith

  -- The rests of fetch_file after its runs of downloaders.
  abbrev after_curl : Option Bool → M Bool
  after_curl none = panic
  after_curl (some success) = return success

  abbrev after_python : Text → FilePath → Option Bool → M Bool
  after_python url tmp none = run_downloader host curl url tmp >>= after_curl
  after_python url tmp (some true) = return true
  after_python url tmp (some false) = run_downloader host curl url tmp >>= after_curl

  abbrev after_deno : Text → FilePath → Option Bool → M Bool
  after_deno url tmp none = run_downloader host python url tmp >>= after_python url tmp
  after_deno url tmp (some true) = return true
  after_deno url tmp (some false) = run_downloader host python url tmp >>= after_python url tmp

  after_curl-Keeps : (q : FilePath) (third : Option Bool) → Keeps q (after_curl third)
  after_curl-Keeps q none d = refl
  after_curl-Keeps q (some success) d = refl

  after_python-Keeps :
      (q : FilePath) (url : Text) (tmp : FilePath)
      → path_eq tmp q ≡ false
      → (second : Option Bool) → Keeps q (after_python url tmp second)
  after_python-Keeps q url tmp h none =
      bind-Keeps q (run_downloader host curl url tmp) after_curl
        (run_downloader-Keeps q curl url tmp h) (after_curl-Keeps q)
  after_python-Keeps q url tmp h (some true) = λ d. refl
  after_python-Keeps q url tmp h (some false) =
      bind-Keeps q (run_downloader host curl url tmp) after_curl
        (run_downloader-Keeps q curl url tmp h) (after_curl-Keeps q)

  after_deno-Keeps :
      (q : FilePath) (url : Text) (tmp : FilePath)
      → path_eq tmp q ≡ false
      → (first : Option Bool) → Keeps q (after_deno url tmp first)
  after_deno-Keeps q url tmp h none =
      bind-Keeps q (run_downloader host python url tmp) (after_python url tmp)
        (run_downloader-Keeps q python url tmp h) (after_python-Keeps q url tmp h)
  after_deno-Keeps q url tmp h (some true) = λ d. refl
  after_deno-Keeps q url tmp h (some false) =
      bind-Keeps q (run_downloader host python url tmp) (after_python url tmp)
        (run_downloader-Keeps q python url tmp h) (after_python-Keeps q url tmp h)

  fetch_file-eq :
      (url : Text) (tmp : FilePath) (d : Disk)
      → fetch_file host url tmp d ≡ (run_downloader host deno url tmp >>= after_deno url tmp) d
  unfolding fetch_file
  fetch_file-eq url tmp d = ground arith

  fetch_file-Keeps :
      (q : FilePath) (url : Text) (tmp : FilePath)
      → path_eq tmp q ≡ false
      → Keeps q (fetch_file host url tmp)
  fetch_file-Keeps q url tmp h d =
      ap (λ r. r.0.files q) (fetch_file-eq url tmp d)
      ∙ bind-Keeps q (run_downloader host deno url tmp) (after_deno url tmp)
          (run_downloader-Keeps q deno url tmp h) (after_deno-Keeps q url tmp h) d

  store-Keeps :
      (q : FilePath) (url : Text) (filename : FilePath)
      → path_eq filename q ≡ false
      → path_eq (tmp_of filename) q ≡ false
      → path_eq (static_checksum_path filename) q ≡ false
      → Keeps q (store host url filename)
  unfolding store
  store-Keeps q url filename a b c d =
      let d' = (set_file (static_checksum_path filename) (some url) d).0 in
      ground (arith, copy_archive-Keeps q (tmp_of filename) filename a d')

  fetch_and_store-Keeps :
      (q : FilePath) (url : Text) (filename : FilePath)
      → path_eq filename q ≡ false
      → path_eq (tmp_of filename) q ≡ false
      → path_eq (static_checksum_path filename) q ≡ false
      → Keeps q (fetch_and_store host url filename)
  unfolding fetch_and_store
  fetch_and_store-Keeps q url filename a b c d =
      let tmp = tmp_of filename in
      let d₀ = (set_file tmp none d).0 in
      let d₁ = (fetch_file host url tmp d₀).0 in
      let d₂ = (assert_exists tmp true d₁).0 in
      ground (arith, fetch_file-Keeps q url tmp b d₀, store-Keeps q url filename a b c d₁)

  pub fetch_and_store-HasNoCopy :
      (home : Option Text) (url : Text) (filename : FilePath) (d : Disk)
      → HasNoCopy host home url filename d
      → HasNoCopy host home url filename (fetch_and_store host url filename d).0
  fetch_and_store-HasNoCopy none url filename d h = tt
  fetch_and_store-HasNoCopy (some home) url filename d (h, a, b, c) =
      (fetch_and_store-Keeps (cached_path host home url) url filename a b c d ∙ h, a, b, c)
