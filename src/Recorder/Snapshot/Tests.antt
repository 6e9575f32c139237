-- ===== src/Recorder/Snapshot/Tests.antt =====
-- Examples of the snapshot worker of src/msg_recorder/recorder.cc.
use cris_core.Recorder.Snapshot.Handshake.{
  generate, run_job, end_workers, wake, leave, stop_runner, set_shutdown, join, act, run, fresh,
}
use cris_core.Recorder.Snapshot.Handshake.Stopping.{
  is_stuck, finish, stuck_never_joined, finish-joined,
}
use cris_core.Prelude.{true, false, ℕ, ◌≡◌, refl, true, [], ◌∷◌}
use cris_core.Recorder.Snapshot.{
  IntervalConfig, WakeUpConfig, Worker, Round, round, Reach, here, next, woken, IsTop,
  compare_wake_up, snapshot, has_time, add_snapshot, maintain_max_num_of_snapshots,
}
use cris_core.Recorder.Snapshot.Copies.{AreNewest, of_interval, Reach-AreNewest}

abbrev minutely : IntervalConfig
minutely = record { name = 1; period = 60000; max_num_of_copies = 2 }

abbrev hourly : IntervalConfig
hourly = record { name = 2; period = 3600000; max_num_of_copies = 2 }

abbrev waits : IntervalConfig → ℕ → WakeUpConfig
waits c t = record { interval_config = c; wake_time = t }

abbrev first_worker : Worker
first_worker = record {
  current = waits minutely 500;
  wake_up_queue = waits hourly 500 ∷ [];
  snapshot_path_map = λ n. [];
  generated = [];
}

first_worker_Reach : Reach 500 (hourly ∷ minutely ∷ []) first_worker
unfolding woken IsTop compare_wake_up
first_worker_Reach = here (waits hourly 500 ∷ []) [] (waits minutely 500) refl (refl, (refl, tt))

abbrev second_worker : Worker
second_worker = record (snapshot first_worker 510 77 true) {
  current = waits hourly 500;
  wake_up_queue = waits minutely 60500 ∷ [];
}

first_Round : Round first_worker second_worker
unfolding IsTop compare_wake_up
first_Round =
    round 510 77 true (waits minutely 60500 ∷ []) [] (waits hourly 500) refl (refl, (refl, tt)) refl

kept_seen : second_worker.snapshot_path_map 1 ≡ 77 ∷ []
unfolding snapshot has_time add_snapshot maintain_max_num_of_snapshots
kept_seen = refl

Reach-AreNewest_example :
    AreNewest (of_interval 1 second_worker.generated) (second_worker.snapshot_path_map 1)
Reach-AreNewest_example = Reach-AreNewest 1 (next first_worker_Reach first_Round)

-- A snapshot job is given to the runner, and the runner is stopped and its workers leave before it
-- runs.
job_left_behind :
    is_stuck (run (fresh true) (generate ∷ stop_runner ∷ end_workers ∷ set_shutdown ∷ [])) ≡ true
unfolding run act fresh
job_left_behind = refl

stuck_never_joined_example :
    (run
      (run (fresh true) (generate ∷ stop_runner ∷ end_workers ∷ set_shutdown ∷ []))
      (run_job true ∷ wake ∷ leave ∷ join ∷ [])).joined
    ≡ false
stuck_never_joined_example =
    stuck_never_joined true (generate ∷ stop_runner ∷ end_workers ∷ set_shutdown ∷ [])
      (run_job true ∷ wake ∷ leave ∷ join ∷ []) job_left_behind

job_waits : is_stuck (run (fresh true) (generate ∷ [])) ≡ false
unfolding run act fresh
job_waits = refl

finish-joined_example : (run (run (fresh true) (generate ∷ [])) finish).joined ≡ true
finish-joined_example = finish-joined true (generate ∷ []) job_waits
