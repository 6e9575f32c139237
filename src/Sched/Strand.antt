-- ===== src/Sched/Strand.antt =====
-- JobRunnerStrand and JobAliveToken of src/sched/job_runner.cc. The decision of PushToRunnerIfNeeded
-- and that of the immediate AddJob run under hybrid_spin_mtx_, so each is one step; the queue's own
-- operations are atomic, being those of a lock-free queue; everything between is a step of its own.
pub mod Invariant
pub mod Safety
pub mod Liveness
mod Tests
use cris_core.Prelude.{
  ℕ, suc, ◌+◌, ◌≡◌, Bool, true, false, not, ◌&&◌, ◌||◌, Option, none, some, List, [], ◌∷◌, ◌++◌,
  if◌then◌else◌,
}

-- The fields of JobRunnerStrand that its methods change.
pub record Strand (Job : Type 0) : Type 0 where
  pub has_ready_job : Bool
  pub pending_jobs : List Job

-- Where the alive token of a job that has left the queue is: with the thread that took the job and
-- has not pushed it yet, in a queue of the runner, in the running job, or being destroyed.
pub data Phase (Job : Type 0) : Type 0 where
  picked : Job → Phase Job
  queued : Job → Phase Job
  running : Job → Phase Job
  ending : Phase Job

-- One strand and what is under way around it. `arriving` counts the threads in AddJob that have
-- pushed their job and have not decided yet; `submitted` and `released` are the jobs in the order in
-- which they were given to the strand and in which they left it for good.
pub record System (Job : Type 0) : Type 0 where
  pub strand : Strand Job
  pub open strand use *
  pub runner_alive : Bool
  pub arriving : ℕ
  pub tokens : List (Phase Job)
  pub submitted : List Job
  pub released : List Job

module _ {Job : Type 0} where
  abbrev pub is_nil : List Job → Bool
  is_nil [] = true
  is_nil (x ∷ xs) = false

  -- ConsumeOne of the pending queue, and the rest of the decision: `next` is what is to be pushed.
  pub take_next : List Job → Strand Job × Option Job
  take_next [] = (record { has_ready_job = false; pending_jobs = [] }, none)
  take_next (job ∷ jobs) = (record { has_ready_job = true; pending_jobs = jobs }, some job)

  -- The locked part of PushToRunnerIfNeeded.
  pub decide : Bool → Strand Job → Strand Job × Option Job
  decide is_in_running_job s =
      if not is_in_running_job && s.has_ready_job then (s, none) else take_next s.pending_jobs

  -- The locked part of AddJob with ForceRunImmediately; `owns_lock` is what try_to_lock gave.
  unfoldable pub decide_immediate : Bool → Strand Job → Strand Job × Bool
  decide_immediate owns_lock s =
      if not owns_lock || s.has_ready_job || not (is_nil s.pending_jobs)
      then (s, false)
      else (record s { has_ready_job = true }, true)

  abbrev pub with_next : List (Phase Job) → Option Job → List (Phase Job)
  with_next tokens none = tokens
  with_next tokens (some job) = tokens ++ picked job ∷ []

  -- A decision by a thread: the job that it takes out is picked.
  pub decided : Bool → System Job → System Job
  unfolding decide
  decided is_in_running_job s =
      let (strand', next) = decide is_in_running_job s.strand in
      record s { strand = strand'; tokens = with_next s.tokens next }

  pub start : System Job
  start = record {
    strand = record { has_ready_job = false; pending_jobs = [] };
    runner_alive = true;
    arriving = 0;
    tokens = [];
    submitted = [];
    released = [];
  }

  -- What the users of the strand do: add a job, add one to be run at once (a refusal changes
  -- nothing), destroy the runner.
  pub data Arrival (s t : System Job) : Type 0 where
    submit :
        (job : Job)
        → t ≡ record s {
          strand = record (s.strand) { pending_jobs = s.pending_jobs ++ job ∷ [] };
          arriving = suc s.arriving;
          submitted = s.submitted ++ job ∷ [];
        }
        → Arrival s t
    immediate :
        (job : Job) (owns_lock : Bool)
        → (decide_immediate owns_lock s.strand).1 ≡ true
        → t ≡ record s {
          strand = (decide_immediate owns_lock s.strand).0;
          tokens = s.tokens ++ running job ∷ [];
          submitted = s.submitted ++ job ∷ [];
          released = s.released ++ job ∷ [];
        }
        → Arrival s t
    runner_dies : t ≡ record s { runner_alive = false } → Arrival s t

  -- What the strand, the runner and the jobs do on their own.
  pub data Work (s t : System Job) : Type 0 where
    -- The decision after a push to the pending queue.
    arrive : (n : ℕ) → s.arriving ≡ suc n → t ≡ decided false (record s { arriving = n }) → Work s t
    -- `runner->AddJob(std::move(*next))`
    push :
        (xs ys : List (Phase Job)) (job : Job)
        → s.tokens ≡ xs ++ picked job ∷ ys
        → s.runner_alive ≡ true
        → t ≡ record s { tokens = xs ++ queued job ∷ ys; released = s.released ++ job ∷ [] }
        → Work s t
    -- The runner is gone: `next` is destroyed, and its token with it.
    drop :
        (xs ys : List (Phase Job)) (job : Job)
        → s.tokens ≡ xs ++ picked job ∷ ys
        → s.runner_alive ≡ false
        → t ≡ record s { tokens = xs ++ ending ∷ ys; released = s.released ++ job ∷ [] }
        → Work s t
    -- A worker takes the job out of a queue, or the queue's destructor discards it.
    begin :
        (xs ys : List (Phase Job)) (job : Job)
        → s.tokens ≡ xs ++ queued job ∷ ys
        → t ≡ record s { tokens = xs ++ running job ∷ ys }
        → Work s t
    discard :
        (xs ys : List (Phase Job)) (job : Job)
        → s.tokens ≡ xs ++ queued job ∷ ys
        → t ≡ record s { tokens = xs ++ ending ∷ ys }
        → Work s t
    -- The last copy of the token goes.
    finish :
        (xs ys : List (Phase Job)) (job : Job)
        → s.tokens ≡ xs ++ running job ∷ ys
        → t ≡ record s { tokens = xs ++ ending ∷ ys }
        → Work s t
    -- ~JobAliveToken
    retire :
        (xs ys : List (Phase Job))
        → s.tokens ≡ xs ++ ending ∷ ys
        → t ≡ decided true (record s { tokens = xs ++ ys })
        → Work s t

  pub data Reach : System Job → Type 0 where
    here : Reach start
    arrived : {s t : System Job} → Reach s → Arrival s t → Reach t
    worked : {s t : System Job} → Reach s → Work s t → Reach t
