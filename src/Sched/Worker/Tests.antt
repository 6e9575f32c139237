-- ===== src/Sched/Worker/Tests.antt =====
-- A runner with one worker that shuts down while the worker is going to sleep.
use cris_core.Prelude.{◌≡◌, refl, true, false, [], ◌∷◌}
use cris_core.Sched.Worker.{Worker, Turn, by_break, worker_loop, loop, turn_body}

abbrev fresh : Worker
fresh = record {
  active_workers_num = 0;
  last_active_timestamp = 10;
  has_pending_jobs = false;
  stopped_flag = false;
}

abbrev ran_job : Turn
ran_job = record {
  shutdown = false;
  processed = true;
  now_idle = 20;
  now = 20;
  shutdown_locked = false;
}

abbrev shut_down_asleep : Turn
shut_down_asleep = record {
  shutdown = false;
  processed = false;
  now_idle = 30;
  now = 2000;
  shutdown_locked = true;
}

-- The loop is left by the `break`, and the count of a runner with no worker left is 2^64 - 1.
left_by_break : (worker_loop 0 0 1000 fresh (ran_job ∷ shut_down_asleep ∷ [])).1 ≡ by_break
unfolding worker_loop loop turn_body
left_by_break = refl
