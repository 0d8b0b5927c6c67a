-- ===== src/Isolate/Shared.antt =====
-- `IsolateHandle` (src/isolate.rs): requests to an isolate from any thread, and its disposal.
--
-- Each method takes the mutex for its whole body, so the steps of all threads are one sequence. The
-- requests that reach C++ are recorded, with the isolate that they were sent to.
use rusty_v.Base.{
  ℕ, ◌≡◌, refl, ap, ◌∙◌, Bool, true, false, List, [], ◌∷◌, ◌++◌, append_assoc, append-nil, Option,
  none, some,
}

pub data Request : Type 0 where
  terminate_execution cancel_terminate_execution is_execution_terminating request_interrupt :
      Request

-- `IsolateHandleInner`.
pub record Shared : Type 0 where
  pub isolate : Option ℕ
  pub sent : List (ℕ × Request)

-- `IsolateHandle::new`.
unfoldable pub new_handle : ℕ → Shared
new_handle i = record { isolate = some i; sent = [] }

unfoldable pub send : Request → Shared → ℕ → Shared
send r s i = record s { sent = s.sent ++ ((i, r) ∷ []) }

-- `with_isolate_ptr`, for a closure that makes one request.
unfoldable pub with_isolate_ptr : Option ℕ → Request → Shared → Option Shared
unfolding send
with_isolate_ptr none r s = none
with_isolate_ptr (some i) r s = some (send r s i)

-- A method, where C++ answers `reply` to `is_execution_terminating`.
pub data Step : Type 0 where
  request : Request → Bool → Step
  dispose : Step

-- What a method returns: V8's reply to a question, and for the others whether they were sent.
unfoldable pub reply_of : Request → Bool → Bool
reply_of is_execution_terminating reply = reply
reply_of _ reply = true

unfoldable pub answer : Request → Bool → Shared → Option Shared → Bool × Shared
answer r reply s none = (false, s)
answer r reply s (some s') = (reply_of r reply, s')

unfoldable pub step_shared : Step → Shared → Bool × Shared
step_shared (request r reply) s = answer r reply s (with_isolate_ptr s.isolate r s)
step_shared dispose s = (true, record s { isolate = none })

unfoldable pub run_shared : List Step → Shared → List Bool × Shared
run_shared [] s = ([], s)
run_shared (step ∷ steps) s =
    let (b, s') = step_shared step s in let (bs, s'') = run_shared steps s' in (b ∷ bs, s'')

-- Requests only.
abbrev pub requests : List (Request × Bool) → List Step
requests [] = []
requests ((r, b) ∷ rs) = request r b ∷ requests rs

abbrev pub all_false : List (Request × Bool) → List Bool
all_false [] = []
all_false ((r, b) ∷ rs) = false ∷ all_false rs

abbrev pub replies : List (Request × Bool) → List Bool
replies [] = []
replies ((r, b) ∷ rs) = reply_of r b ∷ replies rs

abbrev pub addressed : ℕ → List (Request × Bool) → List (ℕ × Request)
addressed i [] = []
addressed i ((r, b) ∷ rs) = (i, r) ∷ addressed i rs

after_dispose :
    (rs : List (Request × Bool)) (sent : List (ℕ × Request))
    → run_shared (requests rs) (record { isolate = none; sent = sent })
      ≡ (all_false rs, record { isolate = none; sent = sent })
unfolding run_shared step_shared with_isolate_ptr answer
after_dispose [] sent = refl
after_dispose ((r, b) ∷ rs) sent = rw (after_dispose rs sent) refl

before_dispose :
    (i : ℕ) (rs : List (Request × Bool)) (more : List Step) (sent : List (ℕ × Request))
    → run_shared (requests rs ++ more) (record { isolate = some i; sent = sent }) ≡ (
        let (bs, s) =
          run_shared more (record { isolate = some i; sent = sent ++ addressed i rs }) in
        (replies rs ++ bs, s))
unfolding run_shared step_shared with_isolate_ptr answer
before_dispose i [] more sent = rw append-nil refl
before_dispose i ((r, b) ∷ rs) more sent =
    rw
      (
        before_dispose i rs more (sent ++ ((i, r) ∷ [])),
        append_assoc sent ((i, r) ∷ []) (addressed i rs),
      )
      refl

-- Requests that any threads make of a handle before its isolate is disposed and after: all of the
-- first reach that isolate, in their order, and return true or V8's reply; none of the later ones
-- reaches C++, and they all return false.
pub run_shared_lem :
    (i : ℕ) (before later : List (Request × Bool))
    → run_shared (requests before ++ (dispose ∷ requests later)) (new_handle i) ≡ (
      replies before ++ (true ∷ all_false later),
      record { isolate = none; sent = addressed i before },
    )
unfolding run_shared step_shared new_handle
run_shared_lem i before later =
    before_dispose i before (dispose ∷ requests later) []
    ∙ ap (λ (r : List Bool × Shared). (replies before ++ (true ∷ r.0), r.1))
        (after_dispose later (addressed i before))
