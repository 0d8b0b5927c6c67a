-- ===== src/Handle/Host.antt =====
-- `HandleHost`: which isolate a handle belongs to. A null isolate pointer is `none`.
pub mod Matching
use rusty_v.Base.{ℕ, ◌==◌, Bool, true, false, Option, none, some, ◌>>=◌, ◌>>◌, assert}

pub data HandleHost : Type 0 where
  scope : HandleHost
  isolate : ℕ → HandleHost
  disposed_isolate : HandleHost

-- `get_handle_host` of a `Global`, and `From<&IsolateHandle>`.
unfoldable pub from_ptr : Option ℕ → HandleHost
from_ptr none = disposed_isolate
from_ptr (some ile) = isolate ile

-- `none` is a panic.
unfoldable pub match_host : HandleHost → HandleHost → Option ℕ → Option Bool
match_host scope scope _ = some true
match_host (isolate ile1) (isolate ile2) _ = some (ile1 == ile2)
match_host scope (isolate ile1) (some ile2) = some (ile1 == ile2)
match_host (isolate ile1) scope (some ile2) = some (ile1 == ile2)
match_host scope (isolate ile1) none = some true
match_host (isolate ile1) scope none = some true
match_host disposed_isolate _ _ = none
match_host _ disposed_isolate _ = none

unfoldable pub assert_match_host : HandleHost → HandleHost → Option ℕ → Option (Unit {0})
assert_match_host a b scope_opt = do same ← match_host a b scope_opt; assert same

unfoldable pub match_isolate : HandleHost → ℕ → Option Bool
match_isolate a ile = match_host a (isolate ile) (some ile)

unfoldable pub assert_match_isolate : HandleHost → ℕ → Option (Unit {0})
assert_match_isolate a ile = assert_match_host a (isolate ile) (some ile)

unfoldable pub get_isolate : HandleHost → Option ℕ
get_isolate scope = none
get_isolate (isolate ile) = some ile
get_isolate disposed_isolate = none

-- `Handle::open` of data that stands at `data`, in the isolate of the given scope.
unfoldable pub open_handle : HandleHost → ℕ → ℕ → Option ℕ
open_handle host data_ptr ile = do assert_match_isolate host ile; some data_ptr

-- `Handle::get_unchecked`, and `borrow` of a `Global`.
unfoldable pub get_unchecked : HandleHost → ℕ → Option ℕ
get_unchecked disposed_isolate data_ptr = none
get_unchecked _ data_ptr = some data_ptr

-- `==` of two handles, by what their data compare to.
unfoldable pub eq_handles : HandleHost → HandleHost → Bool → Option Bool
eq_handles a b same_data = do
  hosts ← match_host a b none
  elim hosts [ true ↦ some same_data | false ↦ some false ]
