-- ===== src/Sched/Strand/Safety.antt =====
-- What the comment above PushToRunnerIfNeeded in job_runner.cc claims as the safety of a strand.
use cris_core.Prelude.{◌≤◌, ◌≡◌, ◌++◌, arith, length}
use cris_core.Sched.Strand.{System, Reach}
use cris_core.Sched.Strand.Invariant.{in_hand, Reach-Inv, ready_count, ready_count_le}

module _ {Job : Type 0} where
  -- In every reachable state at most one job of the strand is outside its pending queue (picked,
  -- queued in the runner, running or ending), and `has_ready_job_` says whether there is one.
  pub single_job :
      {s : System Job}
      → Reach s
      → (length s.tokens ≤ 1) × (length s.tokens ≡ ready_count s.has_ready_job)
  single_job {s} r =
      let v = Reach-Inv r in (omega (arith, v.single, ready_count_le s.has_ready_job), v.single)

  -- In every reachable state the jobs that have left the strand are the first ones that were
  -- given to it, in the order in which they were given, and the rest are the one in hand, if any,
  -- and the pending ones, in order too.
  pub jobs_in_order :
      {s : System Job} → Reach s → s.released ++ (in_hand s.tokens ++ s.pending_jobs) ≡ s.submitted
  jobs_in_order r = (Reach-Inv r).order
