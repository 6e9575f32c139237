-- ===== src/Sched/Runner/Tests.antt =====
-- A runner with three workers, and the instances of the runner's theorems.
use cris_core.Prelude.{
  ℕ, suc, ◌<◌, ◌≡◌, ◌≢◌, refl, true, false, none, some, [], ◌∷◌, ◌++◌, arith, zero, get_elem?,
}
use cris_core.Sched.Strand.{Strand}
use cris_core.Sched.Runner.{
  Config, Runner, Added, worker_idx, add_jobs, steal, steal_loop, try_process_one,
}
use cris_core.Sched.Runner.Scheduling.{IsReady, queue_of, add_jobs_lem, add_jobs_out_of_bounds}
use cris_core.Sched.Runner.Stealing.{steal-some}

abbrev three : Config
three = record { thread_num = 3; always_active_thread_num = 1; active_time = 1000 }

abbrev busy : Runner ℕ
busy = record {
  config = three;
  ready_for_stealing = true;
  workers = some [] ∷ some (5 ∷ 6 ∷ []) ∷ some [] ∷ [];
}

abbrev stopping : Runner ℕ
stopping = record busy { ready_for_stealing = false }

busy-no_null : (i : ℕ) → i < 3 → get_elem? busy.workers i ≢ some none
busy-no_null zero h = λ e. cc
busy-no_null (suc zero) h = λ e. cc
busy-no_null (suc (suc zero)) h = λ e. cc
busy-no_null (suc (suc (suc i))) h = absurd (omega arith)

busy-IsReady : IsReady busy
busy-IsReady = record { some_thread = omega arith; all_there = refl; no_null = busy-no_null }

stopping-IsReady : IsReady stopping
stopping-IsReady = record { some_thread = omega arith; all_there = refl; no_null = busy-no_null }

add_jobs_lem_example :
    (out : Added ℕ) × (add_jobs busy (7 ∷ []) 4 0 ≡ some out)
    × (out.result ≡ true)
    × (out.notified ≡ worker_idx 3 4 ∷ [])
    × (worker_idx 3 4 < 3)
    × (queue_of out.runner (worker_idx 3 4) ≡ queue_of busy (worker_idx 3 4) ++ 7 ∷ [])
    × ((i : ℕ) → i ≢ worker_idx 3 4 → queue_of out.runner i ≡ queue_of busy i)
add_jobs_lem_example = add_jobs_lem busy (7 ∷ []) 4 0 busy-IsReady refl

add_jobs_out_of_bounds_example : add_jobs stopping (7 ∷ []) 0 3 ≡ none
add_jobs_out_of_bounds_example = add_jobs_out_of_bounds stopping (7 ∷ []) 0 stopping-IsReady refl

steal-some_example :
    (i : ℕ) × (i < 3)
    × (queue_of busy i ≡ 5 ∷ queue_of (steal busy 3).0 i)
    × ((j : ℕ) → j ≢ i → queue_of (steal busy 3).0 j ≡ queue_of busy j)
unfolding steal steal_loop try_process_one
steal-some_example = steal-some busy 3 5 busy-IsReady (omega arith) refl

abbrev idle_strand : Strand ℕ
idle_strand = record { has_ready_job = false; pending_jobs = [] }
