-- ===== src/Params/Tests.antt =====
-- Parameters of an isolate and of a snapshot creator, as instances of the theorems.
use rusty_v.Base.{
  ℕ, ◌+◌, ◌≡◌, ◌≢◌, refl, false, if◌then◌else◌, ◌==◌, List, [], ◌∷◌, Option, none, some, ◌>>=◌,
  arith,
}
use rusty_v.Params.{
  rust, cpp, values, Memory, ends_null, borrowed, owned, StartupData, cpp_data, free, deref,
  drop_data, clone_data, drop_old_data,
}
use rusty_v.Params.Blocks.{Holds, Keeps, cell}
use rusty_v.Params.Calls.{
  Call, snapshot_blob, external_references, allow_atomics_wait, isolate_life, creator_calls,
  creator_life, Reads,
}
use rusty_v.Params.Life.{calls_blocks, Gives}
use rusty_v.Params.Ends.{last_reads, Made, isolate_life_lem, creator_life_lem}

-- A snapshot that C++ made in block 0, a vector of references in block 1, and a block of others.
abbrev start : Memory
start = record {
  next = 3;
  cells = λ b.
      if b == 0
      then cell cpp (values (4 ∷ 5 ∷ 6 ∷ []))
      else (if b == 1
          then cell rust (values (70 ∷ 80 ∷ []))
          else (if b == 2 then cell rust (values []) else none));
}

abbrev others : ℕ → ℕ
others q = if 2 == q then 1 else 0

abbrev sequence : List Call
sequence =
    external_references (borrowed (9 ∷ 0 ∷ []))
    ∷ snapshot_blob (cpp_data 0 3)
    ∷ allow_atomics_wait false
    ∷ external_references (owned 1)
    ∷ []

abbrev contents : List (List ℕ)
contents = (9 ∷ 0 ∷ []) ∷ (4 ∷ 5 ∷ 6 ∷ []) ∷ [] ∷ (70 ∷ 80 ∷ []) ∷ []

start-Holds : Holds (λ q. calls_blocks sequence q + others q) start
start-Holds = record { balanced = λ q. ground arith; unused = λ q e. ground arith }

sequence-Gives : Gives start sequence contents
sequence-Gives = (refl, (((refl, refl), omega arith), (tt, (refl, tt))))

expected :
    last_reads sequence contents
    ≡ record { snapshot = some (4 ∷ 5 ∷ 6 ∷ []); references = some (70 ∷ 80 ∷ []) }
unfolding ends_null
expected = refl

isolate_life_lem_example :
    (m' : Memory) × (isolate_life 1 sequence start
      ≡ some (last_reads sequence contents, last_reads sequence contents, m'))
    × Holds others m'
    × Keeps others start m'
isolate_life_lem_example =
    isolate_life_lem 1 sequence contents others start start-Holds sequence-Gives

-- A blob with one byte more than the snapshot that V8 has read.
abbrev serialize : Reads → Option (List ℕ)
serialize r = elim (r.snapshot) [ none ↦ none | some xs ↦ some (1 ∷ xs) ]

abbrev none_given : List Call
none_given = []

creator-Holds :
    Holds
      (λ q.
        calls_blocks (creator_calls none_given (some (owned 1)) (some (cpp_data 0 3))) q + others q)
      start
unfolding creator_calls
creator-Holds = record { balanced = λ q. ground arith; unused = λ q e. ground arith }

creator-Gives :
    Gives start
      (creator_calls none_given (some (owned 1)) (some (cpp_data 0 3)))
      ((70 ∷ 80 ∷ []) ∷ (4 ∷ 5 ∷ 6 ∷ []) ∷ [])
unfolding creator_calls
creator-Gives = (refl, (((refl, refl), omega arith), tt))

not_empty :
    serialize (
      last_reads
        (creator_calls none_given (some (owned 1)) (some (cpp_data 0 3)))
        ((70 ∷ 80 ∷ []) ∷ (4 ∷ 5 ∷ 6 ∷ []) ∷ []))
    ≢ some []
unfolding creator_calls
not_empty e = cc

abbrev both : List Call
both = creator_calls none_given (some (owned 1)) (some (cpp_data 0 3))

abbrev both_contents : List (List ℕ)
both_contents = (70 ∷ 80 ∷ []) ∷ (4 ∷ 5 ∷ 6 ∷ []) ∷ []

creator_life_lem_example :
    (d : Option StartupData) × (m' : Memory) × (m'' : Memory) × (creator_life serialize 1 none_given
        (some (owned 1))
        (some (cpp_data 0 3))
        start
      ≡ some (last_reads both both_contents, last_reads both both_contents, d, m'))
    × Made m' d (serialize (last_reads both both_contents))
    × (drop_old_data d m' ≡ some m'')
    × Holds others m''
    × Keeps others start m''
creator_life_lem_example =
    creator_life_lem serialize 1 none_given (some (owned 1)) (some (cpp_data 0 3)) both_contents
      others start creator-Holds creator-Gives not_empty

-- A clone of C++'s data is Rust's: each of the two is freed once, by its own allocator.
cloned :
    (do (d, m) ← clone_data (cpp_data 0 3) start; m ← drop_data (cpp_data 0 3) m; deref m d)
    ≡ some (4 ∷ 5 ∷ 6 ∷ [])
unfolding clone_data drop_data deref
cloned = refl

freed_by_the_other : free rust 0 start ≡ none
unfolding free
freed_by_the_other = refl
