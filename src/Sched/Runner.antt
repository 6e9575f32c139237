-- ===== src/Sched/Runner.antt =====
-- JobRunner of src/sched/job_runner.cc: which worker gets a job, and stealing. A worker is its job
-- queue, `none` stands for a null unique_ptr, and a result `none` stands for undefined behaviour (an
-- index outside `workers_`, a modulo by zero). A random choice is an argument of the call.
pub mod Scheduling
pub mod Configuration
pub mod Shutdown
pub mod Stealing
mod Tests
use cris_core.Prelude.{
  ℕ, zero, suc, ◌+◌, ◌-◌, ◌%◌, ◌≡◌, Bool, true, false, not, Option, none, some, List, [], ◌∷◌, ◌++◌,
  leb, ltb, ◌==◌, if◌then◌else◌, get_elem?, get_or, set, replicate,
}
use cris_core.Sched.Strand.{Strand, decide_immediate}

-- JobRunner::Config
pub record Config : Type 0 where
  pub thread_num : ℕ
  pub always_active_thread_num : ℕ
  pub active_time : ℕ

pub record Runner (Job : Type 0) : Type 0 where
  pub config : Config
  pub open config use *
  pub ready_for_stealing : Bool
  pub workers : List (Option (List Job))

-- What AddJob returns, the runner it leaves, and the workers that it notifies, in order.
pub record Added (Job : Type 0) : Type 0 where
  pub runner : Runner Job
  pub result : Bool
  pub notified : List ℕ

-- JobRunner::TryRunImmediately::State
pub data TryState : Type 0 where
  failed enqueued finished : TryState

abbrev pub worker_idx : ℕ → ℕ → ℕ
worker_idx thread_num hint = if ltb hint thread_num then hint else hint % thread_num

-- DefaultSchedulerHint: `current` is this worker's index where the calling thread is one of the
-- runner's workers.
pub default_scheduler_hint : Option ℕ → ℕ → ℕ
default_scheduler_hint none drawn = drawn
default_scheduler_hint (some current) drawn = current

module _ {Job : Type 0} where
  -- The constructor: every worker starts with an empty queue.
  pub new : Config → Runner Job
  new config = record {
    config = config;
    ready_for_stealing = true;
    workers = replicate config.thread_num (some []);
  }

  -- NotifyOneWorker, with `idx` the random number that it drew from 0 to thread_num_, both included.
  pub notify_one_worker : Runner Job → ℕ → Option (List ℕ)
  notify_one_worker r idx = elim (get_elem? r.workers idx) [
    | none ↦ none
    | some none ↦ some []
    | some (some queue) ↦ some (idx ∷ [])
  ]

  notify_if_not_ready : Runner Job → ℕ → ℕ → Option (Added Job)
  unfolding notify_one_worker
  notify_if_not_ready r worker drawn =
      if not r.ready_for_stealing
      then (elim (notify_one_worker r drawn) [
        | none ↦ none
        | some more ↦ some (record { runner = r; result = true; notified = worker ∷ more })
      ])
      else some (record { runner = r; result = true; notified = worker ∷ [] })

  -- AddJob and AddJobs with a scheduler hint; `drawn` is the number that NotifyOneWorker may draw.
  pub add_jobs : Runner Job → List Job → ℕ → ℕ → Option (Added Job)
  unfolding notify_if_not_ready
  add_jobs r jobs hint drawn =
      let idx = worker_idx r.thread_num hint in
      if r.thread_num == 0 then none else (elim (get_elem? r.workers idx) [
        | none ↦ none
        | some none ↦ some (record { runner = r; result = false; notified = [] })
        | some (some queue) ↦
            notify_if_not_ready (record r { workers = set r.workers idx (some (queue ++ jobs)) })
              idx drawn
      ])

  pub add_job : Runner Job → Job → ℕ → ℕ → Option (Added Job)
  add_job r job hint drawn = add_jobs r (job ∷ []) hint drawn

  take_job :
      List (Option (List Job)) → ℕ → Option (List Job) → Option (Job × List (Option (List Job)))
  take_job workers idx none = none
  take_job workers idx (some []) = none
  take_job workers idx (some (job ∷ jobs)) = some (job, set workers idx (some jobs))

  -- TryProcessOne of the worker at `idx`: the job that it runs, and the workers that it leaves.
  pub try_process_one : List (Option (List Job)) → ℕ → Option (Job × List (Option (List Job)))
  unfolding take_job
  try_process_one workers idx = take_job workers idx (get_or workers idx none)

  -- The loop of Steal with `turns` turns left.
  pub steal_loop : List (Option (List Job)) → ℕ → ℕ → ℕ → Option (Job × List (Option (List Job)))
  steal_loop workers thread_num idx zero = none
  steal_loop workers thread_num idx (suc turns) =
      let here = if leb thread_num idx then idx - thread_num else idx in
      let rest = steal_loop workers thread_num (here + 1) turns in
      elim (try_process_one workers here) [ none ↦ rest | some stolen ↦ some stolen ]

  -- Steal, from the worker `drawn`: the job that is run, and the runner that is left.
  pub steal : Runner Job → ℕ → Runner Job × Option Job
  steal r drawn =
      if not r.ready_for_stealing
      then (r, none)
      else (elim (steal_loop r.workers r.thread_num drawn r.thread_num) [
        | none ↦ (r, none)
        | some (job, workers) ↦ (record r { workers = workers }, some job)
      ])

  -- AddJob with TryRunImmediately, on an optional strand: a job with no strand runs at once, and
  -- AddJob of a strand always reports success.
  pub add_job_try : Option (Strand Job) → Bool → TryState
  add_job_try none owns_lock = finished
  add_job_try (some strand) owns_lock =
      if (decide_immediate owns_lock strand).1 then finished else enqueued
