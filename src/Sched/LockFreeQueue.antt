-- ===== src/Sched/LockFreeQueue.antt =====
-- JobLockFreeQueue of src/sched/job_lockfree_queue.h and .cc: a boost::lockfree::queue of pointers to
-- jobs that the queue allocates and frees. The library's queue is a parameter, each of its calls is
-- one step, and a pointer belongs to one caller at a time, so that calls are taken one after the
-- other. An address is a number; memory that is freed holds no job.
pub mod Ownership
mod Tests
use cris_core.Prelude.{
  ℕ, ◌+◌, Bool, true, false, not, Option, none, some, List, [], ◌∷◌, length, ◌==◌, if◌then◌else◌,
}
use cris_core.Sched.LockQueue.Calls.{
  Call, pushes, pushes_batch, consumes_one, consumes_all, asks_empty, Seen,
}

-- The calls of boost::lockfree::queue; the ones that consume give the pointers that they pass on.
pub record BoostQueue (Q : Type 0) : Type 0 where
  pub create : ℕ → Q
  pub enqueue : Q → ℕ → Q
  pub consume_first : Q → Option (ℕ × Q)
  pub consume_rest : Q → List ℕ × Q
  pub has_none : Q → Bool

pub record LockFreeQueue (Q Job : Type 0) : Type 0 where
  pub jobs : Q
  pub heap : ℕ → Option Job
  pub next_address : ℕ

-- What a call of ConsumeOne or ConsumeAll leaves, passes to its functor, and returns.
pub record Consumed (Q Job : Type 0) : Type 0 where
  pub queue : LockFreeQueue Q Job
  pub passed : List (Option Job)
  pub result : Bool

abbrev pub put {ℓ} : {A : Type ℓ} → (ℕ → A) → ℕ → A → ℕ → A
put heap address content i = if i == address then content else heap i

module _ {Job : Type 0} where
  -- `functor(std::move(*job_ptr)); delete job_ptr;` for each of the pointers.
  unfoldable pub take_all : List ℕ → (ℕ → Option Job) → List (Option Job) × (ℕ → Option Job)
  take_all [] heap = ([], heap)
  take_all (job_ptr ∷ rest) heap =
      let taken = take_all rest (put heap job_ptr none) in (heap job_ptr ∷ taken.0, taken.1)

module _ {Q Job : Type 0} (lib : BoostQueue Q) where
  pub new : ℕ → LockFreeQueue Q Job
  new init_capacity = record { jobs = lib.create init_capacity; heap = λ i. none; next_address = 0 }

  pub push : LockFreeQueue Q Job → Job → LockFreeQueue Q Job
  push q job = record {
    jobs = lib.enqueue q.jobs q.next_address;
    heap = put q.heap q.next_address (some job);
    next_address = q.next_address + 1;
  }

  -- PushBatch is the one of JobQueue.
  pub push_batch : LockFreeQueue Q Job → List Job → LockFreeQueue Q Job
  push_batch q [] = q
  push_batch q (job ∷ jobs) = push_batch (push q job) jobs

  pub consume_one : LockFreeQueue Q Job → Consumed Q Job
  consume_one q = elim (lib.consume_first q.jobs) [
    | none ↦ record { queue = q; passed = []; result = false }
    | some (job_ptr, rest) ↦ record {
      queue = record q { jobs = rest; heap = (take_all (job_ptr ∷ []) q.heap).1 };
      passed = (take_all (job_ptr ∷ []) q.heap).0;
      result = true;
    }
  ]

  pub consume_all : LockFreeQueue Q Job → Consumed Q Job
  consume_all q =
      let (pointers, rest) = lib.consume_rest q.jobs in
      let taken = take_all pointers q.heap in
      record {
        queue = record q { jobs = rest; heap = taken.1 };
        passed = taken.0;
        result = not (length pointers == 0);
      }

  pub is_empty : LockFreeQueue Q Job → Bool
  is_empty q = lib.has_none q.jobs

  -- The destructor: the memory that it leaves.
  pub destroy : LockFreeQueue Q Job → ℕ → Option Job
  destroy q = (consume_all q).queue.heap

  pub call : LockFreeQueue Q Job → Call Job → LockFreeQueue Q Job × Seen Job
  call q (pushes job) = (push q job, ([], true))
  call q (pushes_batch jobs) = (push_batch q jobs, ([], true))
  call q consumes_one = ((consume_one q).queue, ((consume_one q).passed, (consume_one q).result))
  call q consumes_all = ((consume_all q).queue, ((consume_all q).passed, (consume_all q).result))
  call q asks_empty = (q, ([], is_empty q))

  -- What the calls show, and the queue after them.
  pub run : LockFreeQueue Q Job → List (Call Job) → LockFreeQueue Q Job × List (Seen Job)
  run q [] = (q, [])
  run q (c ∷ cs) = let rest = run (call q c).0 cs in (rest.0, (call q c).1 ∷ rest.1)
