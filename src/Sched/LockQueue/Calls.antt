-- ===== src/Sched/LockQueue/Calls.antt =====
-- Histories of calls on a JobLockQueue, against the plain list that a JobQueue promises.
use cris_core.Prelude.{
  ℕ, ◌<◌, ◌≡◌, refl, Bool, true, false, Option, some, List, [], ◌∷◌, ◌++◌, map, arith,
}
use cris_core.Prelude.Pow2.{IsPow2}
use cris_core.Sched.LockQueue.{LockQueue, new, push, push_batch, consume_one, consume_all, is_empty}
use cris_core.Sched.LockQueue.Contents.{Holds}
use cris_core.Sched.LockQueue.Operations.{
  new-Holds, push-Holds, push_batch-Holds, consume_one-Pops, consume_all-Holds, has_any,
}

pub data Call (Job : Type 0) : Type 0 where
  pushes : Job → Call Job
  pushes_batch : List Job → Call Job
  consumes_one consumes_all asks_empty : Call Job

-- What the caller sees: the jobs handed to its functor, and the result of the call.
abbrev pub Seen : Type 0 → Type 0
Seen Job = List (Option Job) × Bool

module _ {Job : Type 0} where
  pub call : LockQueue Job → Call Job → LockQueue Job × Seen Job
  call q (pushes job) = (push q job, ([], true))
  call q (pushes_batch jobs) = (push_batch q jobs, ([], true))
  call q consumes_one = ((consume_one q).queue, ((consume_one q).passed, (consume_one q).result))
  call q consumes_all = ((consume_all q).queue, ((consume_all q).passed, (consume_all q).result))
  call q asks_empty = (q, ([], is_empty q))

  pub run : LockQueue Job → List (Call Job) → List (Seen Job)
  run q [] = []
  run q (c ∷ cs) = (call q c).1 ∷ run (call q c).0 cs

  -- The same calls on a list of jobs, oldest first.
  unfoldable pub fifo_call : List Job → Call Job → List Job × Seen Job
  fifo_call xs (pushes job) = (xs ++ job ∷ [], ([], true))
  fifo_call xs (pushes_batch jobs) = (xs ++ jobs, ([], true))
  fifo_call [] consumes_one = ([], ([], false))
  fifo_call (x ∷ xs) consumes_one = (xs, (some x ∷ [], true))
  fifo_call xs consumes_all = ([], (map some xs, has_any xs))
  fifo_call [] asks_empty = ([], ([], true))
  fifo_call (x ∷ xs) asks_empty = (x ∷ xs, ([], false))

  unfoldable pub fifo_run : List Job → List (Call Job) → List (Seen Job)
  fifo_run xs [] = []
  fifo_run xs (c ∷ cs) = (fifo_call xs c).1 ∷ fifo_run (fifo_call xs c).0 cs

  call-Holds :
      (q : LockQueue Job) (xs : List Job) (c : Call Job)
      → Holds q xs
      → Holds (call q c).0 (fifo_call xs c).0 × ((call q c).1 ≡ (fifo_call xs c).1)
  unfolding call fifo_call is_empty
  call-Holds q xs (pushes job) v = (push-Holds q xs job v, refl)
  call-Holds q xs (pushes_batch jobs) v = (push_batch-Holds q xs jobs v, refl)
  call-Holds q [] consumes_one v =
      let (same, passed, result) = consume_one-Pops q [] v in (rw same v, rw (passed, result) refl)
  call-Holds q (x ∷ xs) consumes_one v =
      let (left, passed, result) = consume_one-Pops q (x ∷ xs) v in (left, rw (passed, result) refl)
  call-Holds q xs consumes_all v =
      let (left, passed, result) = consume_all-Holds q xs v in (left, rw (passed, result) refl)
  call-Holds q [] asks_empty v = (v, ground (arith, v.sized))
  call-Holds q (x ∷ xs) asks_empty v = (v, ground (arith, v.sized))

  run_from-fifo :
      (cs : List (Call Job)) (q : LockQueue Job) (xs : List Job)
      → Holds q xs
      → run q cs ≡ fifo_run xs cs
  unfolding run fifo_run
  run_from-fifo [] q xs v = refl
  run_from-fifo (c ∷ cs) q xs v =
      let (next, same) = call-Holds q xs c v in
      λ i. same i ∷ run_from-fifo cs (call q c).0 (fifo_call xs c).0 next i

  -- Whatever calls are made on a new queue whose initial capacity is a positive power of two, the
  -- caller sees what a first-in first-out list would show: no job is lost, repeated or reordered,
  -- across every growth and wrap-around of the ring buffer.
  pub run-fifo :
      (init_capacity : ℕ)
      → IsPow2 init_capacity
      → 0 < init_capacity
      → (cs : List (Call Job)) → run (new init_capacity) cs ≡ fifo_run [] cs
  run-fifo n p h cs = run_from-fifo cs (new n) [] (new-Holds n p h)
