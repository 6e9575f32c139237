-- ===== src/Sched/Worker.antt =====
-- The WorkerLoop of src/sched/job_runner.cc, and the count of active workers that it keeps. One turn
-- of the loop is a function of what the environment answers during it; timestamps are taken to be
-- non-negative, as those of a time stamp counter are.
pub mod Counting
mod Tests
use cris_core.Prelude.{
  ℕ, suc, ◌+◌, ◌-◌, ◌%◌, ◌^◌, Bool, true, false, Option, none, some, List, [], ◌∷◌, ltb,
  if◌then◌else◌,
}

-- `runner_->active_workers_num_`, a std::atomic<std::size_t>, as this worker changes it, and the
-- local variables of the loop.
pub record Worker : Type 0 where
  pub active_workers_num : ℕ
  pub last_active_timestamp : ℕ
  pub has_pending_jobs : Bool
  pub stopped_flag : Bool

-- What one turn reads: the flag in the loop's test, whether `TryProcessOne() || Steal()` found a job,
-- the two clock readings, and the flag again under the lock.
pub record Turn : Type 0 where
  pub shutdown : Bool
  pub processed : Bool
  pub now_idle : ℕ
  pub now : ℕ
  pub shutdown_locked : Bool

-- Whether the loop goes on, and how it was left if it does not.
pub data Exit : Type 0 where
  still_running by_test by_break : Exit

-- std::size_t
abbrev pub size_mod : ℕ
size_mod = 2 ^ 64

abbrev pub fetch_add_one : ℕ → ℕ
fetch_add_one n = (n + 1) % size_mod

abbrev pub fetch_sub_one : ℕ → ℕ
fetch_sub_one n = (n + size_mod - 1) % size_mod

-- The wait at the end of a turn: inactive, and active again unless the runner shuts down.
sleep : Worker → Turn → Worker × Exit
sleep w turn =
    let inactive = record w { active_workers_num = fetch_sub_one w.active_workers_num } in
    if turn.shutdown_locked then (inactive, by_break) else (
      record inactive { active_workers_num = fetch_add_one inactive.active_workers_num },
      still_running,
    )

-- `if (has_pending_jobs) { last_active_timestamp = …; has_pending_jobs = false; }`
note_idle : Worker → Turn → Worker
note_idle w turn =
    if w.has_pending_jobs
    then record w { last_active_timestamp = turn.now_idle; has_pending_jobs = false }
    else w

-- The body of the loop, for the worker `index`.
pub turn_body : ℕ → ℕ → ℕ → Worker → Turn → Worker × Exit
unfolding sleep note_idle
turn_body index always_active active_time w turn =
    let idle = note_idle w turn in
    if turn.processed
    then (record w { has_pending_jobs = true }, still_running)
    else if ltb index always_active
    then (w, still_running)
    else if ltb turn.now (idle.last_active_timestamp + active_time)
    then (idle, still_running)
    else sleep idle turn

-- A turn that does not leave the loop is followed by the next.
and_then : Worker × Exit → (Worker → Worker × Exit) → Worker × Exit
and_then (w, still_running) rest = rest w
and_then (w, by_test) rest = (w, by_test)
and_then (w, by_break) rest = (w, by_break)

-- The turns of the loop, from its test on. The list ends where the observation does.
pub loop : ℕ → ℕ → ℕ → Worker → List Turn → Worker × Exit
unfolding and_then
loop index always_active active_time w [] = (w, still_running)
loop index always_active active_time w (turn ∷ turns) =
    if turn.shutdown
    then (w, by_test)
    else and_then (turn_body index always_active active_time w turn)
        (λ w'. loop index always_active active_time w' turns)

-- The statements behind the loop.
leave : Worker × Exit → Worker × Exit
leave (w, still_running) = (w, still_running)
leave (w, by_test) = (
  record w { active_workers_num = fetch_sub_one w.active_workers_num; stopped_flag = true },
  by_test,
)
leave (w, by_break) = (
  record w { active_workers_num = fetch_sub_one w.active_workers_num; stopped_flag = true },
  by_break,
)

pub worker_loop : ℕ → ℕ → ℕ → Worker → List Turn → Worker × Exit
unfolding leave
worker_loop index always_active active_time w turns = leave (
    loop index always_active active_time
      (record w { active_workers_num = fetch_add_one w.active_workers_num }) turns)
