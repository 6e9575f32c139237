-- ===== src/Sched/Strand/Tests.antt =====
-- Two jobs added to a strand while the first runs, and the instances of the strand's theorems.
use cris_core.Prelude.{
  ℕ, suc, ◌≤◌, ◌≡◌, refl, true, false, List, [], ◌∷◌, ◌++◌, arith, length, length-append, ap,
}
use cris_core.Sched.Strand.{
  Phase, picked, queued, running, ending, System, start, decided, take_next, Work, submit, arrive,
  push, Reach, here, arrived, worked, begin, drop, discard, finish, retire,
}
use cris_core.Sched.Strand.Invariant.{in_hand, ready_count}
use cris_core.Sched.Strand.Safety.{single_job, jobs_in_order}
use cris_core.Sched.Strand.Liveness.{Works, IsQuiet, strand_drains, work_left, work_left_falls}

-- Job 1 is in hand, job 2 is pending and its thread has still to decide.
abbrev two_added : System ℕ
two_added = record {
  strand = record { has_ready_job = true; pending_jobs = 2 ∷ [] };
  runner_alive = true;
  arriving = 1;
  tokens = picked 1 ∷ [];
  submitted = 1 ∷ 2 ∷ [];
  released = [];
}

two_added-Reach : Reach two_added
unfolding start decided take_next
two_added-Reach =
    arrived (worked (arrived here (submit 1 refl)) (arrive 0 refl refl)) (submit 2 refl)

abbrev one_queued : System ℕ
one_queued = record two_added { tokens = queued 1 ∷ []; released = 1 ∷ [] }

one_pushed : Work two_added one_queued
one_pushed = push [] [] 1 refl refl refl

single_job_example : (length two_added.tokens ≤ 1) × (length two_added.tokens ≡ ready_count true)
single_job_example = single_job two_added-Reach

jobs_in_order_example :
    one_queued.released ++ (in_hand one_queued.tokens ++ one_queued.pending_jobs) ≡ 1 ∷ 2 ∷ []
jobs_in_order_example = jobs_in_order (worked two_added-Reach one_pushed)

work_left_falls_example : suc (work_left one_queued) ≤ work_left two_added
work_left_falls_example = work_left_falls two_added one_queued one_pushed

strand_drains_example :
    (t : System ℕ) × Works two_added t × IsQuiet t × (t.released ≡ two_added.submitted)
strand_drains_example = strand_drains two_added-Reach

-- One job has run and its token is gone.
abbrev one_done : System ℕ
one_done = record {
  strand = record { has_ready_job = false; pending_jobs = [] };
  runner_alive = true;
  arriving = 0;
  tokens = [];
  submitted = 1 ∷ [];
  released = 1 ∷ [];
}

one_done-Reach : Reach one_done
unfolding start decided take_next
one_done-Reach =
    worked
      (worked
        (worked
          (worked (worked (arrived here (submit 1 refl)) (arrive 0 refl refl))
            (push [] [] 1 refl refl refl))
          (begin [] [] 1 refl refl))
        (finish [] [] 1 refl refl))
      (retire [] [] refl refl)

no_token : (xs ys : List (Phase ℕ)) (p : Phase ℕ) → ¬ ([] ≡ xs ++ p ∷ ys)
no_token xs ys p e = omega (arith, ap length e, length-append xs (p ∷ ys))

no_work : (t : System ℕ) → ¬ Work one_done t
no_work t (arrive n k e) = absurd (omega arith)
no_work t (push xs ys job k alive e) = no_token xs ys (picked job) k
no_work t (drop xs ys job k dead e) = no_token xs ys (picked job) k
no_work t (begin xs ys job k e) = no_token xs ys (queued job) k
no_work t (discard xs ys job k e) = no_token xs ys (queued job) k
no_work t (finish xs ys job k e) = no_token xs ys (running job) k
no_work t (retire xs ys k e) = no_token xs ys ending k
