-- ===== src/Sched/Runner/Stealing.antt =====
-- Steal of job_runner.cc: its loop sees every worker, whatever number it starts from.
use cris_core.Prelude.{
  ℕ, zero, suc, ◌+◌, ◌-◌, ◌≤◌, ◌<◌, ◌≡◌, ◌≢◌, refl, sym, ap, ◌∙◌, ◌⊎◌, inl, inr, Bool, true, false,
  Option, none, some, List, [], ◌∷◌, arith, leb, if◌then◌else◌, get_or, set, get_or-set_self,
  get_or-set_ne, Bool-cases, Option-cases, List-cases, ◌↔◌,
}
use mathlib.Core.Option.{none-ne-some, some-ne-none}
use native.Mathlib.Nat.{add-zero}
use cris_core.Sched.Runner.{
  Runner, take_job, try_process_one, steal_loop, steal, add_job_try, finished, enqueued,
}
use cris_core.Sched.Runner.Scheduling.{IsReady, queue_of, to_queue}
use cris_core.Sched.Strand.{Strand, decide_immediate}

abbrev wrapped : ℕ → ℕ → ℕ
wrapped n i = if leb n i then i - n else i

wrapped-step :
    (n idx j : ℕ)
    → 0 < n
    → idx ≤ n
    → suc j < n
    → wrapped n (wrapped n idx + 1 + j) ≡ wrapped n (idx + suc j)
wrapped-step n idx j p h k = ground arith

-- The turn at which the loop that starts at `idx` comes to worker `i`.
turn_of : ℕ → ℕ → ℕ → ℕ
turn_of n idx i = if leb idx i then i - idx else i + n - idx

turn_of_lem :
    (n idx i : ℕ)
    → idx ≤ n
    → i < n
    → (turn_of n idx i < n) × (wrapped n (idx + turn_of n idx i) ≡ i)
unfolding turn_of
turn_of_lem n idx i h k = ground arith

module _ {Job : Type 0} where
  take_job-empty :
      (ws : List (Option (List Job))) (i : ℕ) (w : Option (List Job))
      → take_job ws i w ≡ none
      → to_queue w ≡ []
  unfolding take_job
  take_job-empty ws i none h = refl
  take_job-empty ws i (some []) h = refl
  take_job-empty ws i (some (job ∷ jobs)) h = absurd (some-ne-none _ h)

  take_job-some :
      (ws ws' : List (Option (List Job))) (i : ℕ) (job : Job) (w : Option (List Job))
      → take_job ws i w ≡ some (job, ws')
      → (rest : List Job) × (w ≡ some (job ∷ rest)) × (ws' ≡ set ws i (some rest))
  unfolding take_job
  take_job-some ws ws' i job none h = absurd (none-ne-some _ h)
  take_job-some ws ws' i job (some []) h = absurd (none-ne-some _ h)
  take_job-some ws ws' i job (some (job' ∷ jobs)) h = (jobs, cc, cc)

  try_empty :
      (ws : List (Option (List Job))) (i : ℕ)
      → try_process_one ws i ≡ none
      → to_queue (get_or ws i none) ≡ []
  unfolding try_process_one
  try_empty ws i h = take_job-empty ws i (get_or ws i none) h

  abbrev Takes : List (Option (List Job)) → ℕ → Job → List (Option (List Job)) → Type 0
  Takes ws i job ws' =
      (rest : List Job) × (get_or ws i none ≡ some (job ∷ rest)) × (ws' ≡ set ws i (some rest))

  try_some :
      (ws ws' : List (Option (List Job))) (i : ℕ) (job : Job)
      → try_process_one ws i ≡ some (job, ws')
      → Takes ws i job ws'
  unfolding try_process_one
  try_some ws ws' i job h = take_job-some ws ws' i job (get_or ws i none) h

  steal_loop-empty :
      (turns : ℕ) (ws : List (Option (List Job))) (n idx : ℕ)
      → 0 < n
      → idx ≤ n
      → steal_loop ws n idx turns ≡ none
      → (j : ℕ) → j < turns
      → j < n
      → to_queue (get_or ws (wrapped n (idx + j)) none) ≡ []
  unfolding steal_loop
  steal_loop-empty zero ws n idx p h e j k l = elim k [ ]
  steal_loop-empty (suc turns) ws n idx p h e zero k l =
      rw add-zero (elim (Option-cases (try_process_one ws (wrapped n idx))) [
        | inl none_here ↦ try_empty ws (wrapped n idx) none_here
        | inr (got, here) ↦ absurd (some-ne-none got (rw (here, steal_loop) at e))
      ])
  steal_loop-empty (suc turns) ws n idx p h e (suc j) k l =
      elim (Option-cases (try_process_one ws (wrapped n idx))) [
        | inl none_here ↦ rw (← wrapped-step n idx j p h l) (
            steal_loop-empty turns ws n (wrapped n idx + 1) p (ground arith)
              (rw (none_here, steal_loop) at e) j (omega arith) (omega arith))
        | inr (got, here) ↦ absurd (some-ne-none got (rw (here, steal_loop) at e))
      ]

  steal_loop-Takes :
      (turns : ℕ) (ws : List (Option (List Job))) (n idx : ℕ) (job : Job)
      (ws' : List (Option (List Job)))
      → 0 < n
      → idx ≤ n
      → steal_loop ws n idx turns ≡ some (job, ws')
      → (i : ℕ) × (i < n) × Takes ws i job ws'
  unfolding steal_loop
  steal_loop-Takes zero ws n idx job ws' p h e = absurd (none-ne-some _ e)
  steal_loop-Takes (suc turns) ws n idx job ws' p h e =
      elim (Option-cases (try_process_one ws (wrapped n idx))) [
        | inl none_here ↦
            steal_loop-Takes turns ws n (wrapped n idx + 1) job ws' p (ground arith)
              (rw (none_here, steal_loop) at e)
        | inr (got, here) ↦ (
          wrapped n idx,
          ground arith,
          try_some ws ws' (wrapped n idx) job (here ∙ (rw (here, steal_loop) at e)),
        )
      ]

  -- Wherever its search starts, Steal on a runner that is ready for stealing comes back with no job
  -- only if the queue of every worker is empty.
  pub steal-none :
      (r : Runner Job) (drawn : ℕ)
      → IsReady r
      → r.ready_for_stealing ≡ true
      → drawn ≤ r.thread_num
      → (steal r drawn).1 ≡ none
      → (i : ℕ) → i < r.thread_num
      → queue_of r i ≡ []
  unfolding steal
  steal-none r drawn v ready h e i k =
      let (soon, there) = turn_of_lem r.thread_num drawn i h k in
      let n = r.thread_num in
      elim (Option-cases (steal_loop r.workers n drawn n)) [
        | inl nothing ↦ rw there at (
            steal_loop-empty n r.workers n drawn v.some_thread h nothing (turn_of n drawn i) soon
              soon)
        | inr (got, found) ↦ absurd (some-ne-none got.0 (rw (ready, found, steal) at e))
      ]

  -- A job that Steal comes back with was the oldest of some worker's queue; it is taken out of that
  -- queue, and every other queue is as it was.
  pub steal-some :
      (r : Runner Job) (drawn : ℕ) (job : Job)
      → IsReady r
      → drawn ≤ r.thread_num
      → (steal r drawn).1 ≡ some job
      → (i : ℕ) × (i < r.thread_num)
        × (queue_of r i ≡ job ∷ queue_of (steal r drawn).0 i)
        × ((j : ℕ) → j ≢ i → queue_of (steal r drawn).0 j ≡ queue_of r j)
  unfolding steal
  steal-some r drawn job v h e = elim (Bool-cases r.ready_for_stealing) [
    | inl ready ↦ elim (Option-cases (steal_loop r.workers r.thread_num drawn r.thread_num)) [
      | inl nothing ↦ absurd (none-ne-some job (rw (ready, nothing, steal) at e))
      | inr (got, found) ↦
          let (i, k, taken) =
            steal_loop-Takes r.thread_num r.workers r.thread_num drawn got.0 got.1 v.some_thread h
              found in
          let (rest, held, left) = taken in
          let hit : some got.0 ≡ some job = rw (ready, found, steal) at e in
          let same : got.0 ≡ job = cc in
          let out : (steal r drawn).0.workers ≡ got.1 = rw (ready, found, steal) refl in
          let now = get_or-set_self r.workers i (some rest) none (omega (arith, v.all_there)) in
          (
            i,
            k,
            rw (out, left, now, held, same) refl,
            λ j ne.
                rw (out, left)
                  (ap to_queue (get_or-set_ne r.workers i j (some rest) none (λ q. ne (sym q)))),
          )
    ]
    | inr stopping ↦ absurd (none-ne-some job (rw (stopping, steal) at e))
  ]

  -- AddJob with TryRunImmediately on a strand reports FINISHED exactly where the strand's lock was
  -- free, no job of the strand is ready and none is pending, and ENQUEUED otherwise, so that it
  -- never reports FAILED; with no strand it reports FINISHED.
  pub add_job_try_lem :
      (s : Strand Job) (owns_lock : Bool)
      → ((add_job_try (some s) owns_lock ≡ finished)
          ↔ ((owns_lock ≡ true) × (s.has_ready_job ≡ false) × (s.pending_jobs ≡ [])))
        × ((add_job_try (some s) owns_lock ≡ finished)
            ⊎ (add_job_try (some s) owns_lock ≡ enqueued))
        × (add_job_try {Job = Job} none owns_lock ≡ finished)
  unfolding add_job_try decide_immediate
  add_job_try_lem s owns = elim (List-cases s.pending_jobs) [
    | inl e ↦ ground arith
    | inr (job, jobs, e) ↦ ground arith
  ]
