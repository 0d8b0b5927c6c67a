-- ===== src/Build/Tests.antt =====
-- Runs of the build script's code, and instances of its theorems.
use rusty_v.Base.{
  ℕ, zero, suc, ◌<◌, ◌≤◌, ◌≡◌, ◌⊎◌, inl, inr, refl, ap, ◌∙◌, true, false, if◌then◌else◌, List, [],
  ◌∷◌, ◌++◌, length, drop, none, some, arith, Text, codes, text_eq,
}
use rusty_v.Build.Environment.{Env, static_lib_url, replace_non_alphanumeric}
use rusty_v.Build.Download.{
  FilePath, path_eq, Disk, Host, deno, python, curl, not_started, exited, download_file,
  static_checksum_path, fetch_file, set_file,
}
use rusty_v.Build.Download.Kept.{tmp_of}
use rusty_v.Build.Download.Cache.{stale}
use rusty_v.Build.Download.Again.{
  Repeats, after_run, download_file-Repeats, download_file_interrupted,
}
use rusty_v.Build.Inflate.{
  Files, mz_ok, stream_end, other, StreamResult, Miniz, finished, decompress_to_writer,
}
use rusty_v.Build.Inflate.Stream.{IsFiles, Inflated, Proceeds, IsInflate, decompress_to_writer_lem}

-- Files as lists, read one byte at a time, with a header of two bytes.
abbrev bytewise : List ℕ → ℕ → List ℕ × List ℕ
bytewise xs zero = ([], xs)
bytewise [] (suc room) = ([], [])
bytewise (x ∷ xs) (suc room) = (x ∷ [], xs)

abbrev lists : Files
lists = record {
  Input = List ℕ;
  read = λ xs room. some (bytewise xs room);
  read_gz_header = λ xs. some (drop 2 xs);
  Output = List ℕ;
  write_all = λ ys bytes. some (ys ++ bytes);
}

lists-reads :
    (i : List ℕ) (room : ℕ)
    → (bytes : List ℕ) × (i' : List ℕ) × (lists.read i room ≡ some (bytes, i'))
      × (i ≡ bytes ++ i')
      × (length bytes ≤ room)
      × ((0 < length bytes) ⊎ (i ≡ []) ⊎ (room ≡ 0))
lists-reads xs zero = ([], xs, refl, refl, omega arith, inr (inr refl))
lists-reads [] (suc room) = ([], [], refl, refl, omega arith, inr (inl refl))
lists-reads (x ∷ xs) (suc room) = (x ∷ [], xs, refl, refl, omega arith, inl (omega arith))

lists-IsFiles : IsFiles lists
lists-IsFiles = record {
  rest = λ xs. xs;
  contents = λ ys. ys;
  reads = lists-reads;
  writes = λ ys bytes. (ys ++ bytes, refl, refl);
}

-- A toy format: each byte one up, and a 0 at the end.
abbrev decode_byte : List ℕ → StreamResult (Unit {0})
decode_byte [] = record { bytes_consumed = 0; written = []; status = other 5; state = tt }
decode_byte (zero ∷ rest) = record {
  bytes_consumed = 1;
  written = [];
  status = stream_end;
  state = tt;
}
decode_byte (suc x ∷ rest) = record {
  bytes_consumed = 1;
  written = x ∷ [];
  status = mz_ok;
  state = tt;
}

abbrev toy : Miniz
toy = record { InflateState = Unit {0}; initial = tt; inflate = λ s given room. decode_byte given }

abbrev encode : List ℕ → List ℕ
encode [] = 0 ∷ []
encode (x ∷ xs) = suc x ∷ encode xs

abbrev Encodes : Inflated toy
Encodes s body text = body ≡ encode text

toy-Proceeds :
    (body trailer text given later : List ℕ)
    → body ≡ encode text
    → given ++ later ≡ body ++ trailer
    → (0 < length given) ⊎ (body ≡ [])
    → Proceeds toy Encodes given later text (decode_byte given)
toy-Proceeds body trailer [] [] later e split (inl p) = absurd (omega arith)
toy-Proceeds body trailer [] [] later e split (inr p) = absurd (cc)
toy-Proceeds body trailer (x ∷ xs) [] later e split (inl p) = absurd (omega arith)
toy-Proceeds body trailer (x ∷ xs) [] later e split (inr p) = absurd (cc)
toy-Proceeds body trailer [] (zero ∷ given) later e split h = inl (refl, refl)
toy-Proceeds body trailer [] (suc g ∷ given) later e split h =
    let s : suc g ∷ (given ++ later) ≡ 0 ∷ trailer = split ∙ ap (λ t. t ++ trailer) e in absurd (cc)
toy-Proceeds body trailer (x ∷ xs) (zero ∷ given) later e split h =
    let s : zero ∷ (given ++ later) ≡ suc x ∷ (encode xs ++ trailer) =
      split ∙ ap (λ t. t ++ trailer) e in
    absurd (cc)
toy-Proceeds body trailer (x ∷ xs) (suc g ∷ given) later e split h =
    let s : suc g ∷ (given ++ later) ≡ suc x ∷ (encode xs ++ trailer) =
      split ∙ ap (λ t. t ++ trailer) e in
    inr (refl, omega arith, omega arith, encode xs, trailer, xs, cc, cc, refl)

toy-IsInflate : IsInflate toy Encodes
toy-IsInflate = record {
  proceeds = λ s body trailer text given later e split h.
      toy-Proceeds body trailer text given later e split h;
}

decompress_to_writer_lem_example :
    (o : List ℕ) × (decompress_to_writer lists toy 20
        (0x1f ∷ 0x8b ∷ 73 ∷ 106 ∷ 0 ∷ 9 ∷ 9 ∷ [])
        (7 ∷ [])
      ≡ finished o)
    × (o ≡ (7 ∷ []) ++ (72 ∷ 105 ∷ []))
unfolding lists-IsFiles
decompress_to_writer_lem_example =
    decompress_to_writer_lem lists toy Encodes lists-IsFiles toy-IsInflate 20
      (0x1f ∷ 0x8b ∷ 73 ∷ 106 ∷ 0 ∷ 9 ∷ 9 ∷ []) (73 ∷ 106 ∷ 0 ∷ 9 ∷ 9 ∷ []) (7 ∷ [])
      (73 ∷ 106 ∷ 0 ∷ []) (9 ∷ 9 ∷ []) (72 ∷ 105 ∷ []) refl refl refl (omega arith)

-- A build with the default release and features, for Linux.
abbrev linux : Env
linux key =
    if text_eq key (codes "CARGO_CFG_TARGET_OS")
    then some (codes "linux")
    else (if text_eq key (codes "TARGET")
        then some (codes "x86_64-unknown-linux-gnu")
        else (if text_eq key (codes "CARGO_PKG_VERSION")
            then some (codes "150.2.0")
            else (if text_eq key (codes "CARGO_FEATURE_SIMDUTF") then some (codes "1") else none)))

linux_url :
    static_lib_url linux
    ≡ some (
        codes
          "https://github.com/denoland/rusty_v8/releases/download/v150.2.0/librusty_v8_simdutf_release_x86_64-unknown-linux-gnu.a.gz")
unfolding static_lib_url
linux_url = refl

escaped : replace_non_alphanumeric (codes "https://a.b/c-1") ≡ codes "https___a_b_c_1"
unfolding replace_non_alphanumeric
escaped = refl

-- A build that is told where the archive is, and a downloader that gives these bytes.
abbrev archive_url : Text
archive_url = codes "https://a/lib.gz"

abbrev told : Env
told key = if text_eq key (codes "RUSTY_V8_ARCHIVE") then some archive_url else none

abbrev host_with : List ℕ → Host
host_with bytes = record {
  env = told;
  fetch = λ tool url. elim tool [
    | deno ↦ not_started
    | python ↦ exited false (some [])
    | curl ↦ exited true (some bytes)
  ];
  decompress = λ src. (drop 2 src, false);
  cargo_home = some (codes "/home/u/.cargo");
  path_of = λ t. record { dir = []; stem = t; extension = [] };
}

abbrev library : FilePath
library = record { dir = codes "obj"; stem = codes "librusty_v8"; extension = codes "a" }

abbrev bindings : FilePath
bindings = record { dir = codes "gen"; stem = codes "src_binding"; extension = codes "rs" }

abbrev bindings_url : Text
bindings_url = codes "https://m/b.rs"

abbrev fresh : Disk
fresh = record { files = λ p. none; requests = [] }

download_file-Repeats_example :
    (0 < length (after_run (host_with (1 ∷ 2 ∷ 3 ∷ [])) bindings_url bindings fresh).requests)
    × Repeats
        (host_with (1 ∷ 2 ∷ 3 ∷ []))
        bindings_url
        bindings
        archive_url
        (after_run (host_with (1 ∷ 2 ∷ 3 ∷ [])) bindings_url bindings fresh)
unfolding download_file static_lib_url path_eq static_checksum_path stale
download_file-Repeats_example =
    download_file-Repeats (host_with (1 ∷ 2 ∷ 3 ∷ [])) bindings_url bindings archive_url fresh refl
      (refl, refl, refl, refl) refl refl refl refl

abbrev bad : Host
bad = host_with (0x1f ∷ 0x8b ∷ 9 ∷ 9 ∷ [])

download_file_interrupted_example :
    ((download_file bad archive_url library fresh).1 ≡ none)
    × ((after_run bad archive_url library fresh).files (static_checksum_path library)
        ≡ some archive_url)
    × ((after_run bad archive_url library fresh).files library ≡ some (9 ∷ 9 ∷ []))
    × (download_file bad archive_url library (after_run bad archive_url library fresh)
        ≡ (after_run bad archive_url library fresh, some tt))
unfolding download_file fetch_file static_lib_url path_eq static_checksum_path stale
download_file_interrupted_example =
    download_file_interrupted bad archive_url library fresh
      ((fetch_file bad archive_url (tmp_of library) ((set_file (tmp_of library) none fresh).0)).0)
      (0x1f ∷ 0x8b ∷ 9 ∷ 9 ∷ []) refl (refl, refl, refl, refl) refl refl refl refl refl refl refl
      refl
