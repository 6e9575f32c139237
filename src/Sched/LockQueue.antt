-- ===== src/Sched/LockQueue.antt =====
-- src/sched/job_lock_queue.h and job_lock_queue.cc: a growing ring buffer of jobs. The mutex makes
-- each call atomic, so a call is one function on the state. A cell is `none` where it holds an empty
-- std::function: after construction, after `resize`, and after a move out of it. Sizes and indices
-- are those of one std::vector, which are far below 2^64, so they are plain numbers.
pub mod Moving
pub mod Contents
pub mod Growth
pub mod Operations
pub mod Calls
pub mod Overlap
mod Tests
use cris_core.Prelude.{
  ℕ, zero, suc, ◌+◌, ◌-◌, ◌≡◌, Bool, true, false, ◌||◌, Option, none, some, List, [], ◌∷◌, ◌++◌,
  leb, ltb, ◌==◌, if◌then◌else◌, length, get_or, set, replicate,
}
use cris_core.Prelude.Pow2.{bit_ceil}

pub record LockQueue (Job : Type 0) : Type 0 where
  pub jobs : List (Option Job)
  pub read_head : ℕ
  pub write_head : ℕ
  pub size : ℕ

-- What a consuming call does: the queue it leaves, the jobs handed to the functor in order, and its
-- result. The functor is taken to move out of its argument, as every caller's does.
pub record Consumed (Job : Type 0) : Type 0 where
  pub queue : LockQueue Job
  pub passed : List (Option Job)
  pub result : Bool

-- `if (i >= container_size) i -= container_size`
abbrev pub wrap : ℕ → ℕ → ℕ
wrap container_size i = if leb container_size i then i - container_size else i

module _ {Job : Type 0} where
  pub new : ℕ → LockQueue Job
  new init_capacity = record {
    jobs = replicate init_capacity none;
    read_head = 0;
    write_head = 0;
    size = 0;
  }

  abbrev pub resize : List (Option Job) → ℕ → List (Option Job)
  resize jobs n = jobs ++ replicate (n - length jobs) none

  -- One assignment `*dst = std::move(*src)`, and the loop that std::move of a range makes.
  pub move_cell : List (Option Job) → ℕ → ℕ → List (Option Job)
  move_cell jobs src dst = set (set jobs dst (get_or jobs src none)) src none

  pub move_range : List (Option Job) → ℕ → ℕ → ℕ → List (Option Job)
  move_range jobs src dst zero = jobs
  move_range jobs src dst (suc n) = move_range (move_cell jobs src dst) (suc src) (suc dst) n

  pub expand_unsafe : LockQueue Job → ℕ → LockQueue Job
  expand_unsafe q target_capacity =
      let original_capacity = length q.jobs in
      let capacity_after_resize = bit_ceil target_capacity in
      let resized = resize q.jobs capacity_after_resize in
      let read_head_after_resize = q.read_head + capacity_after_resize - original_capacity in
      if leb target_capacity original_capacity
      then q
      else if ltb q.read_head q.write_head || q.size == 0
      then record q { jobs = resized }
      else record q {
        jobs =
            move_range resized q.read_head read_head_after_resize (original_capacity - q.read_head);
        read_head = read_head_after_resize;
      }

  -- The body that Push and the loop of PushBatch share: store at the write head and advance it.
  pub store : LockQueue Job → Job → LockQueue Job
  store q job = record q {
    jobs = set q.jobs q.write_head (some job);
    write_head = wrap (length q.jobs) (q.write_head + 1);
  }

  pub store_all : LockQueue Job → List Job → LockQueue Job
  store_all q [] = q
  store_all q (job ∷ jobs) = store_all (store q job) jobs

  pub push : LockQueue Job → Job → LockQueue Job
  push q job =
      let stored = store (expand_unsafe q (q.size + 1)) job in record stored { size = q.size + 1 }

  pub push_batch : LockQueue Job → List Job → LockQueue Job
  push_batch q jobs =
      let stored = store_all (expand_unsafe q (q.size + length jobs)) jobs in
      record stored { size = q.size + length jobs }

  pub consume_one : LockQueue Job → Consumed Job
  consume_one q =
      if q.size == 0 then record { queue = q; passed = []; result = false } else record {
        queue = record q {
          jobs = set q.jobs q.read_head none;
          read_head = wrap (length q.jobs) (q.read_head + 1);
          size = q.size - 1;
        };
        passed = get_or q.jobs q.read_head none ∷ [];
        result = true;
      }

  -- The loop of ConsumeAll: the cells it leaves, and what it hands on.
  pub consume_loop : List (Option Job) → ℕ → ℕ → List (Option Job) × List (Option Job)
  consume_loop jobs idx zero = (jobs, [])
  consume_loop jobs idx (suc n) =
      let (left, passed) = consume_loop (set jobs idx none) (wrap (length jobs) (idx + 1)) n in
      (left, get_or jobs idx none ∷ passed)

  pub consume_all : LockQueue Job → Consumed Job
  consume_all q =
      let (left, passed) = consume_loop q.jobs q.read_head q.size in
      if q.size == 0 then record { queue = q; passed = []; result = false } else record {
        queue = record { jobs = left; read_head = 0; write_head = 0; size = 0 };
        passed = passed;
        result = true;
      }

  pub is_empty : LockQueue Job → Bool
  is_empty q = q.size == 0

  -- JobQueue::PushBatch of the base class, which pushes one by one.
  pub push_each : LockQueue Job → List Job → LockQueue Job
  push_each q [] = q
  push_each q (job ∷ jobs) = push_each (push q job) jobs
