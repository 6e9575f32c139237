-- ===== src/Sched/LockFreeQueue/Tests.antt =====
-- A lock-free queue over a list of pointers.
use cris_core.Prelude.{ℕ, ◌≡◌, refl, true, Option, none, some, List, [], ◌∷◌, ◌++◌, length, ◌==◌}
use cris_core.Sched.LockQueue.Calls.{
  Call, pushes, pushes_batch, consumes_one, consumes_all, asks_empty, fifo_run,
}
use cris_core.Sched.LockFreeQueue.{
  BoostQueue, take_all, new, push, push_batch, consume_one, destroy, call, run,
}
use cris_core.Sched.LockFreeQueue.Ownership.{IsFifo, destroy-run}

abbrev first_of : List ℕ → Option (ℕ × List ℕ)
first_of [] = none
first_of (p ∷ ps) = some (p, ps)

abbrev pointers : BoostQueue (List ℕ)
pointers = record {
  create = λ n. [];
  enqueue = λ q p. q ++ p ∷ [];
  consume_first = first_of;
  consume_rest = λ q. (q, []);
  has_none = λ q. length q == 0;
}

pointers-IsFifo : IsFifo pointers
pointers-IsFifo = record {
  contents = λ q. q;
  create_law = λ n. refl;
  enqueue_law = λ q p. refl;
  none_law = λ q e. rw e refl;
  first_law = λ q p ps e. (ps, rw e refl, refl);
  rest_law = λ q. (refl, refl);
  has_none_law = λ q. refl;
}

abbrev history : List (Call ℕ)
history =
    pushes 7
    ∷ pushes_batch (8 ∷ 9 ∷ [])
    ∷ consumes_one
    ∷ asks_empty
    ∷ consumes_all
    ∷ consumes_one
    ∷ pushes 5
    ∷ []

destroy-run_example :
    ((run pointers (new pointers 8) history).1 ≡ fifo_run [] history)
    × ((i : ℕ) → destroy pointers (run pointers (new pointers 8) history).0 i ≡ none)
destroy-run_example = destroy-run pointers pointers-IsFifo 8 history

history_seen :
    (run {Job = ℕ} pointers
      (new pointers 8)
      (pushes 7 ∷ pushes_batch (8 ∷ 9 ∷ []) ∷ consumes_one ∷ [])).1
    ≡ ([], true) ∷ ([], true) ∷ (some 7 ∷ [], true) ∷ []
unfolding run call new push push_batch consume_one take_all
history_seen = refl
