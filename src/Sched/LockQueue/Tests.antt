-- ===== src/Sched/LockQueue/Tests.antt =====
-- Runs of the lock queue at concrete inputs, and the instances of its theorems.
use cris_core.Prelude.{ℕ, ◌≡◌, refl, true, none, some, List, [], ◌∷◌, arith}
use cris_core.Prelude.Pow2.{IsPow2, one, double, bit_ceil}
use cris_core.Sched.LockQueue.{
  LockQueue, new, push, store, expand_unsafe, push_batch, consume_one, store_all, push_each,
}
use cris_core.Sched.LockQueue.Calls.{
  Call, pushes, pushes_batch, consumes_one, consumes_all, asks_empty, run, fifo_call, fifo_run,
  run-fifo,
}
use cris_core.Sched.LockQueue.Contents.{Holds}
use cris_core.Sched.LockQueue.Operations.{new-Holds, push_batch-Holds, push_each-Holds}
use cris_core.Sched.LockQueue.Overlap.{push_overlap_loses}

abbrev pow2_two : IsPow2 2
pow2_two = double 1 (one (omega arith)) (omega arith)

abbrev history : List (Call ℕ)
history =
    pushes 1
    ∷ pushes_batch (2 ∷ 3 ∷ [])
    ∷ consumes_one
    ∷ pushes_batch (4 ∷ 5 ∷ 6 ∷ [])
    ∷ asks_empty
    ∷ consumes_all
    ∷ consumes_one
    ∷ []

run-fifo_example : run (new 2) history ≡ fifo_run [] history
run-fifo_example = run-fifo 2 pow2_two (omega arith) history

fifo_run_seen :
    fifo_run {Job = ℕ} [] (pushes 1 ∷ pushes_batch (2 ∷ 3 ∷ []) ∷ consumes_one ∷ consumes_all ∷ [])
    ≡ ([], true) ∷ ([], true) ∷ (some 1 ∷ [], true) ∷ (some 2 ∷ some 3 ∷ [], true) ∷ []
unfolding fifo_run fifo_call
fifo_run_seen = refl

abbrev two_jobs : LockQueue ℕ
two_jobs = push_batch (new 2) (1 ∷ 2 ∷ [])

two_jobs-Holds : Holds two_jobs (1 ∷ 2 ∷ [])
two_jobs-Holds = push_batch-Holds (new 2) [] (1 ∷ 2 ∷ []) (new-Holds 2 pow2_two (omega arith))

push_batch-Holds_example : Holds (push_batch two_jobs (3 ∷ 4 ∷ 5 ∷ [])) (1 ∷ 2 ∷ 3 ∷ 4 ∷ 5 ∷ [])
push_batch-Holds_example = push_batch-Holds two_jobs (1 ∷ 2 ∷ []) (3 ∷ 4 ∷ 5 ∷ []) two_jobs-Holds

push_each-Holds_example : Holds (push_each two_jobs (3 ∷ [])) (1 ∷ 2 ∷ 3 ∷ [])
push_each-Holds_example = push_each-Holds (3 ∷ []) two_jobs (1 ∷ 2 ∷ []) two_jobs-Holds

-- Three jobs in a queue of capacity three: growing to four moves cell 0 over cell 1.
abbrev three_full : LockQueue ℕ
three_full = record {
  jobs = some 1 ∷ some 2 ∷ some 3 ∷ [];
  read_head = 0;
  write_head = 0;
  size = 3;
}

push_overlap_loses_example :
    ((consume_one (push three_full 4)).passed ≡ none ∷ [])
    × ((consume_one (push three_full 4)).result ≡ true)
unfolding bit_ceil
push_overlap_loses_example = push_overlap_loses three_full 4 refl refl (omega arith) (omega arith)

three_full_reached : push_batch (new 3) (1 ∷ 2 ∷ 3 ∷ []) ≡ three_full
unfolding push_batch store_all store expand_unsafe new
three_full_reached = refl
