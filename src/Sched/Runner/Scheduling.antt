-- ===== src/Sched/Runner/Scheduling.antt =====
-- AddJob of job_runner.cc: where a job goes, and what happens to a runner that is not ready.
use cris_core.Prelude.{
  ℕ, zero, suc, ◌≤◌, ◌<◌, ◌≡◌, ◌≢◌, refl, sym, ap, true, false, Option, none, some, List, [], ◌∷◌,
  ◌++◌, arith, ◌==◌, length, get_elem?, get_or, set, replicate, length-replicate, length-set,
  get_or-set_self, get_or-set_ne,
}
use cris_core.Sched.Runner.{Config, Runner, Added, worker_idx, new, notify_one_worker, add_jobs}

pub worker_idx-lt : (n hint : ℕ) → 0 < n → worker_idx n hint < n
worker_idx-lt n hint h = grind arith

module _ {Job : Type 0} where
  -- There is at least one worker, as many as the configuration says, and none is missing.
  pub record IsReady (r : Runner Job) : Type 0 where
    pub some_thread : 0 < r.thread_num
    pub all_there : length r.workers ≡ r.thread_num
    pub no_null : (i : ℕ) → i < r.thread_num → get_elem? r.workers i ≢ some none

  -- The queue of a worker, empty where there is no such worker.
  abbrev pub to_queue : Option (List Job) → List Job
  to_queue none = []
  to_queue (some queue) = queue

  abbrev pub queue_of : Runner Job → ℕ → List Job
  queue_of r i = to_queue (get_or r.workers i none)

  get_elem?_above : (ws : List (Option (List Job))) (i : ℕ) → length ws ≤ i → get_elem? ws i ≡ none
  get_elem?_above [] i h = refl
  get_elem?_above (w ∷ ws) zero h = absurd (omega arith)
  get_elem?_above (w ∷ ws) (suc i) h = get_elem?_above ws i (omega arith)

  get_elem?-replicate :
      (n i : ℕ) (q : Option (List Job)) → get_elem? (replicate n (some [])) i ≡ some q → q ≢ none
  get_elem?-replicate zero i q h = λ e. cc
  get_elem?-replicate (suc n) zero q h = λ e. cc
  get_elem?-replicate (suc n) (suc i) q h = get_elem?-replicate n i q h

  pub new-IsReady : (c : Config) → 0 < c.thread_num → IsReady (new c)
  unfolding new
  new-IsReady c h = record {
    some_thread = h;
    all_there = length-replicate {A = Option (List Job)} c.thread_num (some []);
    no_null = λ i k e. get_elem?-replicate c.thread_num i none e refl;
  }

  get_elem?-some :
      (ws : List (Option (List Job))) (i : ℕ)
      → i < length ws
      → get_elem? ws i ≢ some none
      → (queue : List Job) × (get_elem? ws i ≡ some (some queue)) × (get_or ws i none ≡ some queue)
  get_elem?-some [] i h k = elim h [ ]
  get_elem?-some (none ∷ ws) zero h k = absurd (k refl)
  get_elem?-some (some q ∷ ws) zero h k = (q, refl, refl)
  get_elem?-some (w ∷ ws) (suc i) h k = get_elem?-some ws i (omega arith) k

  -- On a runner that is ready for stealing AddJobs with any hint succeeds: the jobs go, in order, to
  -- the end of the queue of one worker, whose index is below thread_num and is the hint itself if
  -- that is; only this worker is notified, and every other queue is as it was.
  pub add_jobs_lem :
      (r : Runner Job) (jobs : List Job) (hint drawn : ℕ)
      → IsReady r
      → r.ready_for_stealing ≡ true
      → (out : Added Job) × (add_jobs r jobs hint drawn ≡ some out)
        × (out.result ≡ true)
        × (out.notified ≡ worker_idx r.thread_num hint ∷ [])
        × (worker_idx r.thread_num hint < r.thread_num)
        × (queue_of out.runner (worker_idx r.thread_num hint)
            ≡ queue_of r (worker_idx r.thread_num hint) ++ jobs)
        × ((i : ℕ) → i ≢ worker_idx r.thread_num hint → queue_of out.runner i ≡ queue_of r i)
  unfolding add_jobs
  add_jobs_lem r jobs hint drawn v ready =
      let idx = worker_idx r.thread_num hint in
      let below = worker_idx-lt r.thread_num hint v.some_thread in
      let (queue, here, there) =
        get_elem?-some r.workers idx (omega (arith, v.all_there)) (v.no_null idx below) in
      let busy : (r.thread_num == 0) ≡ false = ground (arith, v.some_thread) in
      let workers = set r.workers idx (some (queue ++ jobs)) in
      let held =
        get_or-set_self r.workers idx (some (queue ++ jobs)) none (omega (arith, v.all_there)) in
      (
        record { runner = record r { workers = workers }; result = true; notified = idx ∷ [] },
        rw (busy, here, add_jobs, ready) refl,
        refl,
        refl,
        below,
        rw (held, there) refl,
        λ i ne.
            ap to_queue
              (get_or-set_ne r.workers idx i (some (queue ++ jobs)) none (λ e. ne (sym e))),
      )

  -- Before the constructor has finished and once the destructor has begun, AddJob notifies a random
  -- worker, and the number drawn may be thread_num itself: the access is then out of bounds.
  pub add_jobs_out_of_bounds :
      (r : Runner Job) (jobs : List Job) (hint : ℕ)
      → IsReady r
      → r.ready_for_stealing ≡ false
      → add_jobs r jobs hint r.thread_num ≡ none
  unfolding add_jobs
  add_jobs_out_of_bounds r jobs hint v stopping =
      let idx = worker_idx r.thread_num hint in
      let below = worker_idx-lt r.thread_num hint v.some_thread in
      let (queue, here, there) =
        get_elem?-some r.workers idx (omega (arith, v.all_there)) (v.no_null idx below) in
      let busy : (r.thread_num == 0) ≡ false = ground (arith, v.some_thread) in
      let outside =
        get_elem?_above (set r.workers idx (some (queue ++ jobs))) r.thread_num
          (omega (arith, v.all_there, length-set r.workers idx (some (queue ++ jobs)))) in
      rw (busy, here, add_jobs, stopping) (rw (outside, notify_one_worker) refl)
