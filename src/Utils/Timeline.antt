-- ===== src/Utils/Timeline.antt =====
-- Timeline::start, pause and stop of src/utils/timeline.cc on one thread: its stack of sessions, how
-- often each is entered (a std::size_t), and the queue of the sessions that are ready to print. A session is known
-- by a number. The top of an empty stack is undefined behaviour.
pub mod Balance
pub mod Print
use cris_core.Prelude.{
  ℕ, zero, suc, ◌+◌, ◌-◌, ◌%◌, ◌^◌, Bool, true, false, not, Option, none, some, List, [], ◌∷◌, ◌++◌,
  ◌==◌, if◌then◌else◌,
}

pub record Thread : Type 0 where
  pub sess_stack : List ℕ
  pub sess_cnt : ℕ → ℕ
  pub sess_ready : List ℕ

-- What is returned: a session or a null pointer.
pub data Answer : Type 0 where
  returns : Option ℕ → Answer
  undefined_behaviour : Answer

abbrev pub set_cnt : (ℕ → ℕ) → ℕ → ℕ → ℕ → ℕ
set_cnt cnt sess value n = if n == sess then value else cnt n

abbrev pub entered : Thread → ℕ → Thread × Answer
entered t sess = (
  record t { sess_cnt = set_cnt t.sess_cnt sess ((t.sess_cnt sess + 1) % 2 ^ 64) },
  returns (some sess),
)

-- The test of the top for a session that is entered already.
unfoldable pub enter_again : Thread → ℕ → List ℕ → Thread × Answer
enter_again t sess [] = (t, undefined_behaviour)
enter_again t sess (top ∷ below) = if top == sess then entered t sess else (t, returns none)

unfoldable pub start : Thread → ℕ → Thread × Answer
start t sess =
    if t.sess_cnt sess == 0
    then entered (record t { sess_stack = sess ∷ t.sess_stack }) sess
    else enter_again t sess t.sess_stack

-- The common part of pause and stop, with what is added to the ready queue at the last exit.
abbrev pub exited : Thread → ℕ → List ℕ → List ℕ → Thread
exited t top below ready =
    if t.sess_cnt top - 1 == 0
    then record {
      sess_stack = below;
      sess_cnt = set_cnt t.sess_cnt top (t.sess_cnt top - 1);
      sess_ready = t.sess_ready ++ ready;
    }
    else record t { sess_cnt = set_cnt t.sess_cnt top (t.sess_cnt top - 1) }

unfoldable pub leave : Thread → List ℕ → Bool → Thread × Answer
leave t [] is_stop = (t, undefined_behaviour)
leave t (top ∷ below) is_stop =
    if t.sess_cnt top == 0
    then (t, returns none)
    else (exited t top below (if is_stop then top ∷ [] else []), returns (some top))

unfoldable pub pause : Thread → Thread × Answer
pause t = leave t t.sess_stack false

unfoldable pub stop : Thread → Thread × Answer
stop t = leave t t.sess_stack true

pub data Call : Type 0 where
  starts : (sess : ℕ) → Call
  pauses : Call
  stops : Call

unfoldable pub call : Thread → Call → Thread × Answer
call t (starts sess) = start t sess
call t pauses = pause t
call t stops = stop t

unfoldable pub run : Thread → List Call → Thread
run t [] = t
run t (c ∷ cs) = run (call t c).0 cs

unfoldable pub fresh : Thread
fresh = record { sess_stack = []; sess_cnt = λ n. 0; sess_ready = [] }
