-- ===== src/Sched/Runner/Shutdown/Tests.antt =====
-- A runner with one worker that is destroyed while the worker is going to sleep.
use cris_core.Prelude.{ℕ, ◌+◌, ◌%◌, ◌<◌, ◌≡◌, refl, true, false, arith}
use cris_core.Sched.Worker.{size_mod}
use cris_core.Sched.Runner.Shutdown.{
  Place, at_test, in_turn, off_duty, leaving, left, joining, returned, System, advance, stop, join,
  set_thread, arrive_at, Step, runs, destroys, stops, has_stopped, joins, has_joined, start, Reach,
  here, next,
}
use cris_core.Sched.Runner.Shutdown.Counting.{total, by_break}
use cris_core.Sched.Runner.Shutdown.Ending.{HasEnded, destroyed-HasEnded, work_left, shutdown_ends}

abbrev ran : System → Place → ℕ → System
ran s place count = record s {
  active_workers_num = count;
  threads = set_thread s.threads 0 (arrive_at (s.threads 0) place);
}

abbrev going_to_sleep : System
going_to_sleep = ran (ran (ran start at_test 1) in_turn 1) off_duty 0

going_to_sleep-Reach : Reach 1 going_to_sleep
unfolding start advance
going_to_sleep-Reach =
    next
      (next (next here (runs 0 false at_test 1 (omega arith) refl refl))
        (runs 0 false in_turn 1 (omega arith) refl refl))
      (runs 0 true off_duty 0 (omega arith) refl refl)

abbrev told_to_stop : System
told_to_stop = record going_to_sleep {
  ready_for_stealing = false;
  threads = set_thread going_to_sleep.threads 0 (stop (going_to_sleep.threads 0));
  caller = joining 0;
}

told_to_stop-Reach : Reach 1 told_to_stop
unfolding start
told_to_stop-Reach =
    next (next (next going_to_sleep-Reach (destroys refl refl)) (stops 0 (omega arith) refl refl))
      (has_stopped refl refl)

abbrev left_alone : System
left_alone = ran (ran told_to_stop (leaving true) 0) (left true) 18446744073709551615

abbrev destroyed : System
destroyed = record left_alone {
  threads = set_thread left_alone.threads 0 (join (left_alone.threads 0));
  caller = returned;
}

destroyed-Reach : Reach 1 destroyed
unfolding start advance
destroyed-Reach =
    next
      (next
        (next (next told_to_stop-Reach (runs 0 false (leaving true) 0 (omega arith) refl refl))
          (runs 0 false (left true) 18446744073709551615 (omega arith) refl refl))
        (joins 0 (omega arith) refl refl refl))
      (has_joined refl refl)

told_to_stop_joins : told_to_stop.caller ≡ joining 0
told_to_stop_joins = refl

destroyed_returned : destroyed.caller ≡ returned
destroyed_returned = refl

destroyed-HasEnded_example :
    ((i : ℕ) → i < 1 → HasEnded (destroyed.threads i))
    × ((destroyed.active_workers_num + total by_break destroyed.threads 1) % size_mod ≡ 0)
destroyed-HasEnded_example = destroyed-HasEnded destroyed-Reach destroyed_returned

shutdown_ends_example :
    ((t : System) × Step 1 told_to_stop t)
    × ((t : System) → Step 1 told_to_stop t → work_left 1 t < work_left 1 told_to_stop)
shutdown_ends_example = shutdown_ends 0 told_to_stop-Reach told_to_stop_joins
